-- ===== src/Grok/Begin/Effort.antt =====
-- Whose effort `previous_turn_effort` of crates/adapter-grok/src/turn.rs returns.
use mathlib.Core.List.{Memᴰ}
use gamchi.Prelude.{
  ℕ, ◌<◌, ◌≡◌, refl, sym, ◌∙◌, subst, true, false, String, ◌==◌, List, [], ◌∷◌, none, some, ok,
  arith, Bool-cases, inl, inr, ◌⊎◌, eq_iff, Result-cases,
}
use gamchi.Prelude.TextOrder.{text_le, text_le_self, text_le_total, text_le_trans}
use gamchi.Wire.{Turn, Generation}
use gamchi.Ledger.State.{Ledger}
use gamchi.Ledger.Files.{read_generation}
use gamchi.Ledger.Listing.{list_turns}
use gamchi.Grok.Begin.{Best, is_later, next_best, best_turn, effort_of, previous_turn_effort}

-- A turn that started at an epoch is no later than another one.
abbrev pub Precedes : ℕ → String → ℕ → String → Type 0
Precedes epoch id at_epoch at_id =
    (epoch < at_epoch) ⊎ ((epoch ≡ at_epoch) × (text_le id at_id ≡ true))

Precedes-self : (epoch : ℕ) (id : String) → Precedes epoch id epoch id
Precedes-self epoch id = inr (refl, text_le_self id)

Precedes-trans :
    (d e f : ℕ) (i j k : String) → Precedes d i e j → Precedes e j f k → Precedes d i f k
Precedes-trans d e f i j k (inl p) (inl q) = inl (omega arith)
Precedes-trans d e f i j k (inl p) (inr (same, le)) = inl (omega arith)
Precedes-trans d e f i j k (inr (same, le)) (inl q) = inl (omega arith)
Precedes-trans d e f i j k (inr (same, le)) (inr (again, more)) =
    inr (same ∙ again, text_le_trans i j k le more)

-- A turn that is taken is no earlier than the one held, and one that is not taken is no later.
later-Precedes :
    (started epoch : ℕ) (id best_id effort : String)
    → is_later started id (some (epoch, best_id, effort)) ≡ true
    → Precedes epoch best_id started id
unfolding is_later
later-Precedes started epoch id best_id effort h = ground (arith, text_le_total id best_id)

not_later-Precedes :
    (started epoch : ℕ) (id best_id effort : String)
    → is_later started id (some (epoch, best_id, effort)) ≡ false
    → Precedes started id epoch best_id
unfolding is_later
not_later-Precedes started epoch id best_id effort h = ground arith

abbrev AtLeast : ℕ → String → Best → Type 0
AtLeast epoch id none = ⊥
AtLeast epoch id (some (best_epoch, best_id, effort)) = Precedes epoch id best_epoch best_id

module _ (thread_id : String) (s : Ledger) where
  -- The turn that the loop holds is one of the thread's turns in the list.
  abbrev From : List Turn → Best → Type 0
  From all none = Unit {0}
  From all (some (epoch, id, effort)) =
      (u : Turn) × (h : Generation) × Memᴰ u all
      × (u.thread_id ≡ thread_id)
      × (u.id ≡ id)
      × (u.effort ≡ effort)
      × (read_generation u.generation_id s ≡ ok h)
      × (h.started_epoch ≡ epoch)

  -- What one turn does to the one held.
  data Next (turn : Turn) (best next : Best) : Type 0 where
    passed : (turn.thread_id == thread_id) ≡ false → next ≡ best → Next turn best next
    held :
        (g : Generation)
        → read_generation turn.generation_id s ≡ ok g
        → is_later g.started_epoch turn.id best ≡ false
        → next ≡ best
        → Next turn best next
    taken :
        (g : Generation)
        → turn.thread_id ≡ thread_id
        → read_generation turn.generation_id s ≡ ok g
        → is_later g.started_epoch turn.id best ≡ true
        → next ≡ some (g.started_epoch, turn.id, turn.effort)
        → Next turn best next

  Next-cases :
      (turn : Turn) (best next : Best)
      → next_best thread_id turn best s ≡ ok next
      → Next turn best next
  unfolding next_best
  Next-cases turn best next h = elim (Bool-cases (turn.thread_id == thread_id)) [
    | inr other ↦ passed other (cc (rw other at h))
    | inl same ↦ elim (Result-cases (read_generation turn.generation_id s)) [
      | inr (e, unread) ↦ absurd (cc (rw (same, unread) at h))
      | inl (g, found) ↦ elim (Bool-cases (is_later g.started_epoch turn.id best)) [
        | inl later ↦
            taken g ((eq_iff turn.thread_id thread_id).0 same) found later
              (cc (rw (same, found, later) at h))
        | inr earlier ↦ held g found earlier (cc (rw (same, found, earlier) at h))
      ]
    ]
  ]

  best_turn-step :
      (turn : Turn) (turns : List Turn) (best out : Best)
      → best_turn thread_id (turn ∷ turns) best s ≡ ok out
      → (next : Best) × Next turn best next × (best_turn thread_id turns next s ≡ ok out)
  unfolding best_turn
  best_turn-step turn turns best out h = elim (Result-cases (next_best thread_id turn best s)) [
    | inr (e, failed) ↦ absurd (cc (rw failed at h))
    | inl (next, given) ↦ (next, Next-cases turn best next given, rw given at h)
  ]

  kept-AtLeast :
      (epoch : ℕ) (id : String) (turn : Turn) (best next : Best)
      → Next turn best next
      → AtLeast epoch id best
      → AtLeast epoch id next
  kept-AtLeast epoch id turn best next (passed other same) h = subst (AtLeast epoch id) (sym same) h
  kept-AtLeast epoch id turn best next (held g found earlier same) h =
      subst (AtLeast epoch id) (sym same) h
  kept-AtLeast epoch id turn none next (taken g own found later same) h = absurd h
  kept-AtLeast epoch id turn (some (e, i, f)) next (taken g own found later same) h =
      subst (AtLeast epoch id) (sym same) (
        Precedes-trans epoch e g.started_epoch id i turn.id h
          (later-Precedes g.started_epoch e turn.id i f later))

  loop-AtLeast :
      (epoch : ℕ) (id : String) (turns : List Turn) (best out : Best)
      → best_turn thread_id turns best s ≡ ok out
      → AtLeast epoch id best
      → AtLeast epoch id out
  loop-AtLeast epoch id [] best out e h = unfold best_turn in subst (AtLeast epoch id) (cc e) h
  loop-AtLeast epoch id (turn ∷ turns) best out e h =
      let (next, step, rest) = best_turn-step turn turns best out e in
      loop-AtLeast epoch id turns next out rest (kept-AtLeast epoch id turn best next step h)

  -- A turn of the thread is no later than what the loop holds once it has seen it.
  seen-AtLeast :
      (turn : Turn) (g : Generation) (best next : Best)
      → turn.thread_id ≡ thread_id
      → read_generation turn.generation_id s ≡ ok g
      → Next turn best next
      → AtLeast g.started_epoch turn.id next
  seen-AtLeast turn g best next own found (passed other same) =
      absurd (cc (other, (eq_iff turn.thread_id thread_id).1 own))
  seen-AtLeast turn g none next own found (held k read earlier same) =
      absurd (unfold is_later in cc earlier)
  seen-AtLeast turn g (some (e, i, f)) next own found (held k read earlier same) =
      let one : k ≡ g = cc (read, found) in
      subst (AtLeast g.started_epoch turn.id) (sym same) (
        subst (λ (x : Generation). Precedes x.started_epoch turn.id e i) one
          (not_later-Precedes k.started_epoch e turn.id i f earlier))
  seen-AtLeast turn g best next own found (taken k mine read later same) =
      let one : k ≡ g = cc (read, found) in
      subst (AtLeast g.started_epoch turn.id) (sym same) (
        subst (λ (x : Generation). Precedes g.started_epoch turn.id x.started_epoch turn.id)
          (sym one) (Precedes-self g.started_epoch turn.id))

  member-AtLeast :
      (w : Turn) (g : Generation) (turns : List Turn) (best out : Best)
      → Memᴰ w turns
      → w.thread_id ≡ thread_id
      → read_generation w.generation_id s ≡ ok g
      → best_turn thread_id turns best s ≡ ok out
      → AtLeast g.started_epoch w.id out
  member-AtLeast w g [] best out m own found e = elim m [ ]
  member-AtLeast w g (turn ∷ turns) best out (Memᴰ.head same) own found e =
      let (next, step, rest) = best_turn-step turn turns best out e in
      loop-AtLeast g.started_epoch w.id turns next out rest
        (seen-AtLeast w g best next own found (subst (λ x. Next x best next) (sym same) step))
  member-AtLeast w g (turn ∷ turns) best out (Memᴰ.tail m) own found e =
      let (next, step, rest) = best_turn-step turn turns best out e in
      member-AtLeast w g turns next out m own found rest

  Next-From :
      (all : List Turn) (turn : Turn) (best next : Best)
      → Memᴰ turn all
      → Next turn best next
      → From all best
      → From all next
  Next-From all turn best next m (passed other same) h = subst (From all) (sym same) h
  Next-From all turn best next m (held g found earlier same) h = subst (From all) (sym same) h
  Next-From all turn best next m (taken g own found later same) h =
      subst (From all) (sym same) (turn, g, m, own, refl, refl, found, refl)

  loop-From :
      (all turns : List Turn) (best out : Best)
      → ((t : Turn) → Memᴰ t turns → Memᴰ t all)
      → best_turn thread_id turns best s ≡ ok out
      → From all best
      → From all out
  loop-From all [] best out within e h = unfold best_turn in subst (From all) (cc e) h
  loop-From all (turn ∷ turns) best out within e h =
      let (next, step, rest) = best_turn-step turn turns best out e in
      loop-From all turns next out (λ t m. within t (Memᴰ.tail m)) rest
        (Next-From all turn best next (within turn (Memᴰ.head refl)) step h)

  -- The turn that the loop ends with, next to one of the thread's turns.
  found-Precedes :
      (turns : List Turn) (w : Turn) (g : Generation) (best : Best)
      → From turns best
      → AtLeast g.started_epoch w.id best
      → (u : Turn) × (h : Generation) × Memᴰ u turns
        × (u.thread_id ≡ thread_id)
        × (u.effort ≡ effort_of best)
        × (read_generation u.generation_id s ≡ ok h)
        × Precedes g.started_epoch w.id h.started_epoch u.id
  found-Precedes turns w g none from least = absurd least
  found-Precedes turns w g (some (e, i, f)) (u, h, m, own, id, effort, read, epoch) least = (
    u,
    h,
    m,
    own,
    effort,
    read,
    subst (λ (p : ℕ × String). Precedes g.started_epoch w.id p.0 p.1) (λ j. (sym epoch j, sym id j))
        least,
  )

-- The effort that `previous_turn_effort` returns is that of a turn of the thread that started last:
-- no turn of the thread that is listed has a generation with a later epoch, or with the same epoch
-- and a greater id. The thread has a listed turn whose generation can be read.
pub previous_turn_effort-latest :
    (thread_id : String) (s t u : Ledger) (turns : List Turn) (effort : String) (w : Turn)
    (g : Generation)
    → list_turns none s ≡ (ok turns, t)
    → previous_turn_effort thread_id s ≡ (ok effort, u)
    → Memᴰ w turns
    → w.thread_id ≡ thread_id
    → read_generation w.generation_id t ≡ ok g
    → (v : Turn) × (h : Generation) × Memᴰ v turns
      × (v.thread_id ≡ thread_id)
      × (v.effort ≡ effort)
      × (read_generation v.generation_id t ≡ ok h)
      × Precedes g.started_epoch w.id h.started_epoch v.id
unfolding previous_turn_effort
previous_turn_effort-latest thread_id s t u turns effort w g listed returned m own found =
    elim (Result-cases (best_turn thread_id turns none t)) [
      | inr (e, failed) ↦ absurd (cc (rw (listed, failed) at returned))
      | inl (best, looped) ↦
          let from = loop-From thread_id t turns turns none best (λ x k. k) looped tt in
          let least = member-AtLeast thread_id t w g turns none best m own found looped in
          let (v, h, k, mine, worth, read, before) =
            found-Precedes thread_id t turns w g best from least in
          (v, h, k, mine, worth ∙ cc (rw (listed, looped) at returned), read, before)
    ]
