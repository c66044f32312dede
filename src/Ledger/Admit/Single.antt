-- ===== src/Ledger/Admit/Single.antt =====
-- The turns in flight on a thread, across an admission (crates/core/src/ledger.rs, `admit_turn`).
use mathlib.Core.Bool.{true≢false}
use gamchi.Prelude.{
  String, ◌==◌, eq_iff, ◌≡◌, ◌≢◌, sym, ◌∙◌, ap, ◌⊎◌, inl, inr, false, Bool-cases, Option, some,
}
use gamchi.Prelude.Assoc.{lookup, lookup-insert}
use gamchi.Wire.{Turn, is_terminal}
use gamchi.Ledger.State.{Ledger, Body, good}
use gamchi.Ledger.Evolve.{Succ, Stored, IsKeyed, Evolves}
use gamchi.Ledger.Admit.{NewTurn, admit_turn}
use gamchi.Ledger.Admit.Idle.{Succ-terminal}
use gamchi.Ledger.Admit.Effect.{IsFresh, Admits, admit_turn-Admission}

-- At most one turn is in flight on a thread.
abbrev pub SingleLive : Ledger → Type 0
SingleLive s =
    (i j : String) (t u : Turn)
    → Stored i t s
    → Stored j u s
    → is_terminal t.status ≡ false
    → is_terminal u.status ≡ false
    → t.thread_id ≡ u.thread_id
    → i ≡ j

new_value : {n t : Turn} → ◌≡◌ {A = Option (Body Turn)} (some (good n)) (some (good t)) → t ≡ n
new_value e = cc

Succ-live : {t u : Turn} → Succ t u → is_terminal u.status ≡ false → is_terminal t.status ≡ false
Succ-live {t} {u} c live = elim (Bool-cases (is_terminal t.status)) [
  | inl h ↦ absurd (true≢false (sym (Succ-terminal c h) ∙ live))
  | inr h ↦ h
]

pub SingleLive-Evolves : {s u : Ledger} → Evolves s u → SingleLive s → SingleLive u
SingleLive-Evolves e single i j t v stored stored' live live' same =
    let (t0, h, c) = e.origin i t stored in
    let (v0, k, d) = e.origin j v stored' in
    single i j t0 v0 h k (Succ-live c live) (Succ-live d live')
      (sym c.thread_id ∙ (same ∙ d.thread_id))

module _ (n : Turn) (s u : Ledger) (a : Admits n s u) where
  -- A stored turn is the new one, or it was there before.
  Stored-before :
      (i : String) (t : Turn) → Stored i t u → ((i ≡ n.id) × (t ≡ n)) ⊎ Stored i t a.before
  Stored-before i t h =
      let k =
        sym (lookup-insert n.id i (good n) a.before.turns) ∙ (ap (lookup i) (sym a.added) ∙ h) in
      elim (Bool-cases (n.id == i)) [
        | inl same ↦ inl (sym ((eq_iff n.id i).0 same), new_value (rw same at k))
        | inr other ↦ inr (rw other at k)
      ]

  -- The new turn is the only one in flight on its thread.
  lone :
      (i : String) (t : Turn)
      → Stored i t a.before
      → is_terminal t.status ≡ false
      → t.thread_id ≢ n.thread_id
  lone i t stored live same = true≢false (sym (a.idle i t stored same) ∙ live)

  SingleLive-Admits : SingleLive s → SingleLive u
  SingleLive-Admits single i j t v h k live live' same =
      let before = SingleLive-Evolves a.evolved single in
      elim (Stored-before i t h) [
        | inl (ei, et) ↦ elim (Stored-before j v k) [
          | inl (ej, ev) ↦ ei ∙ sym ej
          | inr k' ↦ absurd (lone j v k' live' (sym same ∙ ap (λ (x : Turn). x.thread_id) et))
        ]
        | inr h' ↦ elim (Stored-before j v k) [
          | inl (ej, ev) ↦ absurd (lone i t h' live (same ∙ ap (λ (x : Turn). x.thread_id) ev))
          | inr k' ↦ before i j t v h' k' live live' same
        ]
      ]

-- An admission, whatever it returns, leaves at most one turn in flight on a thread, if there was
-- at most one on each before, the turn files are named by the ids in them, and the ids that the
-- process makes name none of them.
pub admit_turn-SingleLive :
    (spec : NewTurn) (s : Ledger)
    → IsKeyed s
    → IsFresh s
    → SingleLive s
    → SingleLive (admit_turn spec s).1
admit_turn-SingleLive spec s keyed fresh single = elim (admit_turn-Admission spec s keyed fresh) [
  | inl (n, r, asked, a) ↦ SingleLive-Admits n s (admit_turn spec s).1 a single
  | inr (k, e, _, _) ↦ SingleLive-Evolves e single
]
