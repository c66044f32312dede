-- ===== src/Ledger/Waiters/Tidy.antt =====
-- The invariant of the registry of waiters (`Inner.waiters` of crates/core/src/ledger.rs),
-- operation by operation.
use mathlib.Core.List.{Memᴰ}
use gamchi.Prelude.{
  ℕ, suc, ◌<◌, String, ◌==◌, eq_iff, ◌≡◌, ◌≢◌, sym, ◌∙◌, subst, inl, inr, false, ◌&&◌, Bool-cases,
  Option-cases, none, some, List, [], ◌∷◌, nat_eq, arith, All, All-map, ◌⊎◌, All-mem,
}
use gamchi.Prelude.Assoc.{lookup, insert, remove, lookup-insert, lookup-remove}
use gamchi.Ledger.Waiters.{
  Waiters, count_of, drop_one, waiter, wake, wake_and_drop, is_last, release_waiter, drop_waiter,
}

abbrev pub Entry : Waiters → String → ℕ → Type 0
Entry w k p = lookup k w.entries ≡ some p

-- A reference is to a pair that was made, and that is registered for its caller's turn only.
abbrev pub Owned : Waiters → String × ℕ → Type 0
Owned w h = (h.1 < w.next_pair) × ((k : String) → Entry w k h.1 → k ≡ h.0)

pub record IsTidy (w : Waiters) : Type 0 where
  pub bounded : (k : String) (p : ℕ) → Entry w k p → p < w.next_pair
  pub distinct : (j k : String) (p : ℕ) → Entry w j p → Entry w k p → j ≡ k
  pub owned : All (Owned w) w.holders

All-drop_one {κ} :
    (P : String × ℕ → Type κ) (k : String) (p : ℕ) (l : List (String × ℕ))
    → All P l
    → All P (drop_one k p l)
unfolding drop_one
All-drop_one P k p [] h = tt
All-drop_one P k p ((j, q) ∷ l) (x, h) = elim (Bool-cases (j == k && nat_eq p q)) [
  | inl e ↦ rw e h
  | inr e ↦ rw e (x, All-drop_one P k p l h)
]

-- A caller of `wait` takes a pair that is registered.
enter_known :
    (t : String) (w : Waiters) (p : ℕ)
    → Entry w t p
    → IsTidy w
    → IsTidy (record w { holders = (t, p) ∷ w.holders })
unfolding count_of
enter_known t w p e h = record {
  bounded = h.bounded;
  distinct = h.distinct;
  owned = ((h.bounded t p e, λ k f. h.distinct k t p f e), h.owned);
}

added : String → Waiters → Waiters
added t w = record w {
  entries = insert t w.next_pair w.entries;
  holders = (t, w.next_pair) ∷ w.holders;
  next_pair = suc w.next_pair;
}

added-Entry :
    (t k : String) (w : Waiters) (p : ℕ)
    → Entry (added t w) k p
    → ((t ≡ k) × (p ≡ w.next_pair)) ⊎ Entry w k p
unfolding added
added-Entry t k w p e = elim (Bool-cases (t == k)) [
  | inl same ↦ inl ((eq_iff t k).0 same, ground (arith, lookup-insert t k w.next_pair w.entries))
  | inr differ ↦ inr (ground (arith, lookup-insert t k w.next_pair w.entries))
]

-- A caller takes a new pair.
enter_new : (t : String) (w : Waiters) → lookup t w.entries ≡ none → IsTidy w → IsTidy (added t w)
unfolding count_of added
enter_new t w e h = record {
  bounded = λ k p f. elim (added-Entry t k w p f) [
    | inl (a, b) ↦ omega arith
    | inr g ↦ omega (arith, h.bounded k p g)
  ];
  distinct = λ j k p f g. elim (added-Entry t j w p f) [
    | inl (a, b) ↦ elim (added-Entry t k w p g) [
      | inl (c, d) ↦ sym a ∙ c
      | inr g' ↦ absurd (omega (arith, h.bounded k p g'))
    ]
    | inr f' ↦ elim (added-Entry t k w p g) [
      | inl (c, d) ↦ absurd (omega (arith, h.bounded j p f'))
      | inr g' ↦ h.distinct j k p f' g'
    ]
  ];
  owned = (
    (
      omega arith,
      λ k f. elim (added-Entry t k w w.next_pair f) [
        | inl (a, b) ↦ sym a
        | inr g ↦ absurd (omega (arith, h.bounded k w.next_pair g))
      ],
    ),
    All-map w.holders
        (λ x o. (
          omega (arith, o.0),
          λ k f. elim (added-Entry t k w x.1 f) [
            | inl (a, b) ↦ absurd (omega (arith, o.0))
            | inr g ↦ o.1 k g
          ],
        ))
        h.owned,
  );
}

pub enter-IsTidy : (t : String) (w : Waiters) → IsTidy w → IsTidy (waiter t w).1
unfolding waiter added
enter-IsTidy t w h = elim (Option-cases (lookup t w.entries)) [
  | inl e ↦ rw (e, waiter) (enter_new t w e h)
  | inr (p, e) ↦ rw (e, waiter) (enter_known t w p e h)
]

-- The registry without the entry of `t`.
without : String → Waiters → Waiters
without t w = record w { entries = remove t w.entries }

without-Entry :
    (t k : String) (w : Waiters) (p : ℕ) → Entry (without t w) k p → (t ≢ k) × Entry w k p
unfolding without
without-Entry t k w p e = elim (Bool-cases (t == k)) [
  | inl same ↦ absurd (ground (arith, lookup-remove t k w.entries))
  | inr differ ↦ (λ same. ground (arith, eq_iff t k), ground (arith, lookup-remove t k w.entries))
]

without-IsTidy : (t : String) (w : Waiters) → IsTidy w → IsTidy (without t w)
unfolding without
without-IsTidy t w h = record {
  bounded = λ k p e. h.bounded k p (without-Entry t k w p e).1;
  distinct = λ j k p e f. h.distinct j k p (without-Entry t j w p e).1 (without-Entry t k w p f).1;
  owned = All-map w.holders (λ x o. (o.0, λ k e. o.1 k (without-Entry t k w x.1 e).1)) h.owned;
}

-- `notified` is told apart from the rest.
pub told-IsTidy : (w : Waiters) (n : List ℕ) → IsTidy w → IsTidy (record w { notified = n })
told-IsTidy w n h = record { bounded = h.bounded; distinct = h.distinct; owned = h.owned }

pub wake-IsTidy : (t : String) (w : Waiters) → IsTidy w → IsTidy (wake t w)
unfolding wake
wake-IsTidy t w h = elim (Option-cases (lookup t w.entries)) [
  | inl e ↦ rw (e, wake) h
  | inr (p, e) ↦ rw (e, wake) (told-IsTidy w (p ∷ w.notified) h)
]

pub wake_and_drop-IsTidy : (t : String) (w : Waiters) → IsTidy w → IsTidy (wake_and_drop t w)
unfolding wake_and_drop without
wake_and_drop-IsTidy t w h = elim (Option-cases (lookup t w.entries)) [
  | inl e ↦ rw (e, wake_and_drop) h
  | inr (p, e) ↦
      rw (e, wake_and_drop) (told-IsTidy (without t w) (p ∷ w.notified) (without-IsTidy t w h))
]

pub drop_waiter-IsTidy : (t : String) (p : ℕ) (w : Waiters) → IsTidy w → IsTidy (drop_waiter t p w)
unfolding drop_waiter
drop_waiter-IsTidy t p w h = record {
  bounded = h.bounded;
  distinct = h.distinct;
  owned = All-drop_one (Owned w) t p w.holders h.owned;
}

pub release_waiter-IsTidy :
    (t : String) (p : ℕ) (w : Waiters) → IsTidy w → IsTidy (release_waiter t p w)
unfolding release_waiter without
release_waiter-IsTidy t p w h = elim (Bool-cases (is_last (lookup t w.entries) p w)) [
  | inl last ↦
      rw (release_waiter, last) (told-IsTidy (without t w) (p ∷ w.notified) (without-IsTidy t w h))
  | inr more ↦ rw (release_waiter, more) (told-IsTidy w (p ∷ w.notified) h)
]

spare_of :
    (t : String) (p : ℕ) (w : Waiters)
    → Entry w t p
    → is_last (lookup t w.entries) p w ≡ false
    → 1 < count_of p w.holders
spare_of t p w e more = ground (arith, e)

-- A caller that holds the only reference unregisters its pair.
pub release_waiter-last :
    (t k : String) (p : ℕ) (w : Waiters)
    → IsTidy w
    → Memᴰ (t, p) w.holders
    → count_of p w.holders ≡ 1
    → ¬ Entry (release_waiter t p w) k p
unfolding release_waiter without
release_waiter-last t k p w h m alone e =
    let own = (All-mem (Owned w) w.holders (t, p) h.owned m).1 in
    elim (Bool-cases (is_last (lookup t w.entries) p w)) [
      | inl last ↦
          let (differ, e') = without-Entry t k w p (rw (release_waiter, last) at e) in
          differ (sym (own k e'))
      | inr more ↦
          let e' : Entry w k p = rw (release_waiter, more) at e in
          let lots = spare_of t p w (subst (λ x. Entry w x p) (own k e') e') more in omega arith
    ]
