-- ===== src/Ops/Cancel/Teardown.antt =====
-- What `cancel_turn` of crates/gamchi/src/ops.rs returns, and whose process group it tears down.
use gamchi.Prelude.{ℕ, suc, ◌≡◌, Bool, true, false, Option, none, some, ok, err}
use gamchi.Wire.{Generation}
use gamchi.Ledger.Error.{io, other}
use gamchi.Ledger.State.{Ledger}
use gamchi.Ledger.Exec.{Exec}
use gamchi.Ledger.Live.{recorded_child_is_alive}
use gamchi.Grok.Teardown.{Children, teardown_process_group}
use gamchi.Ops.Host.{Host}

-- A method that leaves the generations and the answers of the operating system.
record Steady {ℓ} {A : Type ℓ} (m : Exec A) : Type 0 where
  at : (s : Ledger) → ((m s).1.generations ≡ s.generations) × ((m s).1.os ≡ s.os)

abbrev fail_call : Exec (Unit {0})
fail_call s = (err (io other), record s { calls = suc s.calls })

abbrev pass_call : Exec (Unit {0})
pass_call s = (ok tt, record s { calls = suc s.calls })

abbrev torn_if : Option ℕ → (alive : Bool) → Children → Children
torn_if none alive c = c
torn_if (some pid) true c = teardown_process_group pid c
torn_if (some pid) false c = c

-- The children once the child that the generation records has been torn down, if it runs.
abbrev pub child_torn : Generation → Ledger → Children → Children
child_torn g s c = torn_if g.child_pid (recorded_child_is_alive s g) c
