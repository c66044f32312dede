-- ===== src/Ledger/Evolve.antt =====
-- How one method may change the turn files: a relation of the states before and after it that is
-- a preorder, so it passes through the methods.
use gamchi.Prelude.{
  suc, ◌⊎◌, ◌+◌, ◌%◌, ◌^◌, String, ◌==◌, eq_iff, ◌≡◌, refl, sym, ◌∙◌, ap, subst, true, false, some,
  arith, Bool-cases, inl, inr,
}
use gamchi.Prelude.Assoc.{lookup, insert, lookup-insert}
use gamchi.Wire.{Turn, is_terminal}
use gamchi.Ledger.State.{Ledger, good}
use gamchi.Ledger.Exec.{◌>>=◌, call}
use gamchi.Ledger.Files.{write_turn, write_json_atomic, next_seq}

-- A turn without its parked request, which `clear_pending` removes from any turn that names it.
abbrev pub unparked : Turn → Turn
unparked t = record t { pending_request_id = ""; pending_decision = "" }

-- The later record `u` of a turn that was `t`.
pub record Succ (t u : Turn) : Type 0 where
  pub id : u.id ≡ t.id
  pub thread_id : u.thread_id ≡ t.thread_id
  pub generation_id : u.generation_id ≡ t.generation_id
  pub client_request_id : u.client_request_id ≡ t.client_request_id
  pub final : is_terminal t.status ≡ true → (u ≡ t) ⊎ (u ≡ unparked t)

abbrev pub Stored : String → Turn → Ledger → Type 0
Stored id t s = lookup id s.turns ≡ some (good t)

-- A file is named by the id of the turn in it.
pub record IsKeyed (s : Ledger) : Type 0 where
  pub keyed : (id : String) (t : Turn) → Stored id t s → t.id ≡ id

-- A method also leaves alone what the operating system answers: the model lets it change between
-- methods only.
abbrev pub SameFiles : Ledger → Ledger → Type 0
SameFiles s u = (u.turns ≡ s.turns) × (u.os ≡ s.os)

pub record Evolves (s u : Ledger) : Type 0 where
  pub kept : (id : String) (t : Turn) → Stored id t s → (t' : Turn) × Stored id t' u × Succ t t'
  pub origin : (id : String) (t' : Turn) → Stored id t' u → (t : Turn) × Stored id t s × Succ t t'
  pub same_os : u.os ≡ s.os

pub record Safe (s u : Ledger) : Type 0 where
  pub safe : IsKeyed s → IsKeyed u × Evolves s u

pub Succ-refl : (t : Turn) → Succ t t
Succ-refl t = record {
  id = refl;
  thread_id = refl;
  generation_id = refl;
  client_request_id = refl;
  final = λ h. inl refl;
}

-- A record that stays, or is cleared, twice.
final_trans :
    {t u v : Turn}
    → (u ≡ t) ⊎ (u ≡ unparked t)
    → is_terminal t.status ≡ true
    → (is_terminal u.status ≡ true → (v ≡ u) ⊎ (v ≡ unparked u))
    → (v ≡ t) ⊎ (v ≡ unparked t)
final_trans (inl e) h q = elim (q (subst (λ w. is_terminal w.status ≡ true) (sym e) h)) [
  | inl f ↦ inl (f ∙ e)
  | inr f ↦ inr (f ∙ ap unparked e)
]
final_trans (inr e) h q = elim (q (subst (λ w. is_terminal w.status ≡ true) (sym e) h)) [
  | inl f ↦ inr (f ∙ e)
  | inr f ↦ inr (f ∙ ap unparked e)
]

pub Succ-trans : {t u v : Turn} → Succ t u → Succ u v → Succ t v
Succ-trans {t} {u} {v} p q = record {
  id = q.id ∙ p.id;
  thread_id = q.thread_id ∙ p.thread_id;
  generation_id = q.generation_id ∙ p.generation_id;
  client_request_id = q.client_request_id ∙ p.client_request_id;
  final = λ h. final_trans (p.final h) h q.final;
}

pub Safe-of_same : {s u : Ledger} → SameFiles s u → Safe s u
Safe-of_same {s} {u} (e, o) = record {
  safe = λ k. (
    record { keyed = λ id t h. k.keyed id t (ap (lookup id) (sym e) ∙ h) },
    record {
      kept = λ id t h. (t, ap (lookup id) e ∙ h, Succ-refl t);
      origin = λ id t h. (t, ap (lookup id) (sym e) ∙ h, Succ-refl t);
      same_os = o;
    },
  );
}

pub Safe-refl : (s : Ledger) → Safe s s
Safe-refl s = Safe-of_same (refl, refl)

pub Evolves-trans : {s u v : Ledger} → Evolves s u → Evolves u v → Evolves s v
Evolves-trans {s} {u} {v} p q = record {
  kept = λ id t h.
      let (t1, h1, c1) = p.kept id t h in
      let (t2, h2, c2) = q.kept id t1 h1 in (t2, h2, Succ-trans c1 c2);
  origin = λ id t h.
      let (t1, h1, c1) = q.origin id t h in
      let (t2, h2, c2) = p.origin id t1 h1 in (t2, h2, Succ-trans c2 c1);
  same_os = q.same_os ∙ p.same_os;
}

pub Safe-trans : {s u v : Ledger} → Safe s u → Safe u v → Safe s v
Safe-trans {s} {u} {v} p q = record {
  safe = λ k. let (k1, e1) = p.safe k in let (k2, e2) = q.safe k1 in (k2, Evolves-trans e1 e2);
}

pub Stored-inj : (id : String) (s : Ledger) {t u : Turn} → Stored id t s → Stored id u s → t ≡ u
Stored-inj id s h k = cc

-- A later record of a turn that is in flight may change anything but what identifies it.
pub Succ-of_live :
    (t u : Turn)
    → u.id ≡ t.id
    → u.thread_id ≡ t.thread_id
    → u.generation_id ≡ t.generation_id
    → u.client_request_id ≡ t.client_request_id
    → is_terminal t.status ≡ false
    → Succ t u
Succ-of_live t u a b c d live = record {
  id = a;
  thread_id = b;
  generation_id = c;
  client_request_id = d;
  final = λ h. cc;
}

module _ (id : String) (t u : Turn) (s : Ledger) (stored : Stored id t s) (succ : Succ t u) where
  -- The files after a write of `u`.
  abbrev written : Ledger
  written = record s { turns = insert u.id (good u) s.turns }

  written-IsKeyed : IsKeyed s → u.id ≡ id → IsKeyed written
  written-IsKeyed k e = record {
    keyed =
        λ j v h. ground (arith, lookup-insert u.id j (good u) s.turns, eq_iff u.id j, k.keyed j v);
  }

  written-Evolves : u.id ≡ id → Evolves s written
  written-Evolves e = record {
    kept = λ j v h. elim (Bool-cases (u.id == j)) [
      | inl same ↦
          let ij : id ≡ j = sym e ∙ (eq_iff u.id j).0 same in
          let vt : t ≡ v = Stored-inj id s stored (subst (λ x. Stored x v s) (sym ij) h) in
          (u, lookup-insert u.id j (good u) s.turns ∙ rw same, subst (λ w. Succ w u) vt succ)
      | inr other ↦ (v, lookup-insert u.id j (good u) s.turns ∙ rw other h, Succ-refl v)
    ];
    origin = λ j v h. elim (Bool-cases (u.id == j)) [
      | inl same ↦
          let ij : id ≡ j = sym e ∙ (eq_iff u.id j).0 same in
          let uv : u ≡ v =
            Stored-inj j written (lookup-insert u.id j (good u) s.turns ∙ rw same) h in
          (t, subst (λ x. Stored x t s) ij stored, subst (Succ t) uv succ)
      | inr other ↦ (v, sym (lookup-insert u.id j (good u) s.turns ∙ rw other) ∙ h, Succ-refl v)
    ];
    same_os = refl;
  }

  written-Safe : Safe s written
  written-Safe = record {
    safe = λ k.
        let e : u.id ≡ id = succ.id ∙ k.keyed id t stored in
        (written-IsKeyed k e, written-Evolves e);
  }

-- The state after the calls that precede a rename.
abbrev before_rename : Ledger → Ledger
before_rename s = record s { seq = (s.seq + 1) % 2 ^ 64; calls = suc s.calls }

-- A write of a later record, whether it succeeds or fails.
pub write_turn-Safe :
    (id : String) (t u : Turn) (s : Ledger) → Stored id t s → Succ t u → Safe s (write_turn u s).1
unfolding write_turn write_json_atomic next_seq call ◌>>=◌
write_turn-Safe id t u s stored succ = elim (Bool-cases (s.os.fails s.calls)) [
  | inl fails ↦ rw fails (Safe-of_same (refl, refl))
  | inr works ↦ rw works (
      Safe-trans {u = before_rename s} (Safe-of_same (refl, refl))
        (written-Safe id t u (before_rename s) stored succ))
]
