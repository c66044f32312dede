-- ===== src/Ledger/Exec.antt =====
-- The ledger's methods: they change the state, and may fail. What was written before an error
-- stays written, so the state comes back beside the error too.
use gamchi.Prelude.{suc, String, Option, none, some, Result, ok, err, if◌then◌else◌}
use gamchi.Ledger.Error.{LedgerError, io, other}
use gamchi.Ledger.State.{Ledger}

abbrev pub Exec {ℓ} : Type ℓ → Type ℓ
Exec A = Ledger → Result LedgerError A × Ledger

module _ {ℓ} {A : Type ℓ} where
  abbrev pub pure : A → Exec A
  pure a s = (ok a, s)

  abbrev pub raise : LedgerError → Exec A
  raise e s = (err e, s)

  abbrev pub lift : Result LedgerError A → Exec A
  lift r s = (r, s)

  -- A value that the state determines.
  abbrev pub gets : (Ledger → A) → Exec A
  gets f s = (ok (f s), s)

  abbrev pub reads : (Ledger → Result LedgerError A) → Exec A
  reads f s = (f s, s)

module _ {ℓ κ} {A : Type ℓ} {B : Type κ} where
  abbrev pub continue : Result LedgerError A → (A → Exec B) → Exec B
  continue (ok a) f s = f a s
  continue (err e) f s = (err e, s)

  infixl 5 ◌>>=◌
  unfoldable pub ◌>>=◌ : Exec A → (A → Exec B) → Exec B
  ◌>>=◌ m f s = let (r, t) = m s in continue r f t

infixl 5 ◌>>◌
abbrev pub ◌>>◌ {ℓ κ} : {A : Type ℓ} {B : Type κ} → Exec A → Exec B → Exec B
m >> n = m >>= λ _. n

-- A change that cannot fail.
abbrev pub modify : (Ledger → Ledger) → Exec (Unit {0})
modify f s = (ok tt, f s)

-- `match m { … }` on the result itself.
abbrev pub attempt {ℓ} : {A : Type ℓ} → Exec A → Exec (Result LedgerError A)
attempt m s = let (r, t) = m s in (ok r, t)

-- `let _ = m`.
abbrev pub ignore {ℓ} : {A : Type ℓ} → Exec A → Exec (Unit {0})
ignore m s = (ok tt, (m s).1)

-- `return Ok(Some(a))`, or go on.
unfoldable pub or_else {ℓ} : {A : Type ℓ} → Option A → Exec (Option A) → Exec (Option A)
or_else (some a) rest = pure (some a)
or_else none rest = rest

-- One file-system call, which the operating system may fail.
unfoldable pub call : Exec (Unit {0})
call s =
    let t = record s { calls = suc s.calls } in
    if s.os.fails s.calls then (err (io other), t) else (ok tt, t)

-- `lock_exclusive`: create the lock file and wait for the lock.
abbrev pub lock_exclusive : String → Exec (Unit {0})
lock_exclusive path = call
