-- ===== src/Ledger/Admit/Start.antt =====
-- The writes of an admission (crates/core/src/ledger.rs, `admit_turn`), and whether the turn's
-- file is there at the end.
use gamchi.Prelude.{
  ℕ, suc, ◌+◌, ◌%◌, ◌^◌, String, ◌≡◌, refl, ◌∙◌, ap, ◌⊎◌, inl, inr, Bool-cases, Option, none, some,
  ok, err, arith,
}
use gamchi.Prelude.Assoc.{insert}
use gamchi.Wire.{Thread, Turn, Generation}
use gamchi.Ledger.Error.{LedgerError, io, other}
use gamchi.Ledger.Ids.{format_id}
use gamchi.Ledger.State.{Ledger, good}
use gamchi.Ledger.Exec.{Exec, pure, modify, ignore, ◌>>=◌, call}
use gamchi.Ledger.Files.{
  write_json_atomic, write_thread, write_turn, write_generation, next_seq, new_id,
}
use gamchi.Ledger.Evolve.{SameFiles}
use gamchi.Ledger.Live.{drop_hold, hold_live}
use gamchi.Ledger.Admit.{
  NewTurn, new_turn, new_generation, store_client, record_client, client_key, start_turn,
}

abbrev pub bump : ℕ → ℕ
bump n = (n + 1) % 2 ^ 64

-- A write renames or fails.
write_json_atomic-cases :
    (f : Ledger → Ledger) (s : Ledger)
    → let t = record s { seq = bump s.seq; calls = suc s.calls } in
      (write_json_atomic f s ≡ (ok tt, f t)) ⊎ (write_json_atomic f s ≡ (err (io other), t))
unfolding write_json_atomic next_seq call ◌>>=◌
write_json_atomic-cases f s = elim (Bool-cases (s.os.fails s.calls)) [
  | inl e ↦ inr (rw e refl)
  | inr e ↦ inl (rw e refl)
]

pub write_turn-cases :
    (u : Turn) (s : Ledger)
    → let t = record s { seq = bump s.seq; calls = suc s.calls } in
      (write_turn u s ≡ (ok tt, record t { turns = insert u.id (good u) s.turns }))
      ⊎ (write_turn u s ≡ (err (io other), t))
unfolding write_turn
write_turn-cases u s = write_json_atomic-cases _ s

write_generation-cases :
    (id : String) (g : Generation) (s : Ledger)
    → let t = record s { seq = bump s.seq; calls = suc s.calls } in
      (write_generation id g s
        ≡ (ok tt, record t { generations = insert id (good g) s.generations }))
      ⊎ (write_generation id g s ≡ (err (io other), t))
unfolding write_generation
write_generation-cases id g s = write_json_atomic-cases _ s

-- The ids that an admission makes in the state `s`.
abbrev pub next_generation_id : Ledger → String
next_generation_id s = format_id "g" s.os.pid s.os.nanos s.seq

abbrev pub next_turn_id : Ledger → String
next_turn_id s = format_id "tu" s.os.pid s.os.nanos (bump s.seq)

-- The turn that an admission in the state `s` starts.
abbrev pub started_turn : NewTurn → Thread → Ledger → Turn
started_turn spec thread s = new_turn spec thread (next_turn_id s) (next_generation_id s)

hold_live-turns : (id : String) (s : Ledger) → (hold_live id s).turns ≡ s.turns
unfolding hold_live drop_hold call
hold_live-turns id s = ground arith

record_client-turns :
    (key : Option String) (id : String) (s : Ledger)
    → ((record_client key id s).0 ≡ ok tt) × ((record_client key id s).1.turns ≡ s.turns)
unfolding record_client store_client write_json_atomic next_seq call ◌>>=◌
record_client-turns none id s = (refl, refl)
record_client-turns (some key) id s = (refl, ground arith)

write_thread-turns : (t : Thread) (s : Ledger) → (write_thread t s).1.turns ≡ s.turns
unfolding write_thread write_json_atomic next_seq call ◌>>=◌
write_thread-turns t s = ground arith

module _ (thread : Thread) (key : Option String) (generation_id : String) (turn : Turn) where
  -- What follows the write of the turn's file.
  after_write : Exec Turn
  after_write = ignore (write_thread thread) >>= λ _.
      record_client key turn.id >>= λ _. modify (hold_live generation_id) >>= λ _. pure turn

  after_write_lem :
      (s : Ledger) → ((after_write s).0 ≡ ok turn) × ((after_write s).1.turns ≡ s.turns)
  unfolding after_write ◌>>=◌
  after_write_lem s =
      let t = (write_thread thread s).1 in
      let u = (record_client key turn.id t).1 in
      rw (record_client-turns key turn.id t).0 (
        refl,
        hold_live-turns generation_id u
            ∙ ((record_client-turns key turn.id t).1 ∙ write_thread-turns thread s),
      )

module _ (spec : NewTurn) (thread : Thread) (s : Ledger) where
  abbrev turn : Turn
  turn = started_turn spec thread s

  abbrev with_ids : Ledger
  with_ids = record s { seq = bump (bump s.seq) }

  -- The files after a start that succeeded, and after one that failed.
  abbrev pub Started : Type 0
  Started =
      ((start_turn spec thread s).0 ≡ ok turn)
      × ((start_turn spec thread s).1.turns ≡ insert turn.id (good turn) s.turns)

  abbrev pub NotStarted : Type 0
  NotStarted =
      (e : LedgerError) × ((start_turn spec thread s).0 ≡ err e)
      × SameFiles s (start_turn spec thread s).1

  after_turn :
      (t : Ledger)
      → SameFiles s t
      → (let m = write_turn turn >>= λ _.
            after_write
              (record thread { in_progress_turn_id = turn.id })
              (client_key spec.client_request_id)
              (next_generation_id s)
              turn in
          (((m t).0 ≡ ok turn) × ((m t).1.turns ≡ insert turn.id (good turn) s.turns))
          ⊎ ((e : LedgerError) × ((m t).0 ≡ err e) × SameFiles s (m t).1))
  unfolding ◌>>=◌
  after_turn t same = elim (write_turn-cases turn t) [
    | inl e ↦
        let (r, k) =
          after_write_lem (record thread { in_progress_turn_id = turn.id })
            (client_key spec.client_request_id) (next_generation_id s) turn
            (record t {
              seq = bump t.seq;
              calls = suc t.calls;
              turns = insert turn.id (good turn) t.turns;
            }) in
        inl (rw e (r, k ∙ ap (insert turn.id (good turn)) same.0))
    | inr e ↦ inr (io other, rw e refl, rw e same)
  ]

  pub start_turn_lem : Started ⊎ NotStarted
  unfolding start_turn new_id next_seq ◌>>=◌
  start_turn_lem =
      elim (write_generation-cases (next_generation_id s)
        (new_generation (next_generation_id s) turn.id with_ids) with_ids) [
          | inl e ↦ rw e (unfold after_write in after_turn _ (refl, refl))
          | inr e ↦ inr (io other, rw e refl, rw e (refl, refl))
        ]
