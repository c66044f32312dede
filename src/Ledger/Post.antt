-- ===== src/Ledger/Post.antt =====
-- Partial correctness of the methods: from a state in `P`, a result that is no error and the state
-- after it are in `Q`. That a method does return is stated where it is claimed.
use gamchi.Prelude.{
  String, ◌≡◌, refl, sym, ◌∙◌, ap, Bool, true, false, Result, ok, err, subst, arith, eq_iff,
  if◌then◌else◌,
}
use gamchi.Prelude.Assoc.{lookup, lookup-insert}
use gamchi.Wire.{Turn}
use gamchi.Ledger.Error.{LedgerError}
use gamchi.Ledger.State.{Ledger, good}
use gamchi.Ledger.Exec.{Exec, pure, raise, reads, continue, ◌>>=◌, call}
use gamchi.Ledger.Evolve.{Stored, IsKeyed}
use gamchi.Ledger.Files.{read_turn, write_turn, write_json_atomic, next_seq}
use gamchi.Ledger.Keeps.{Stored-of_read, Keeps, Quiet, quiet_rules}

pub record Post {ℓ} {A : Type ℓ} (P : Ledger → Type 0) (m : Exec A) (Q : A → Ledger → Type 0)
    : Type ℓ where
  pub at : (s : Ledger) → P s → (a : A) → (m s).0 ≡ ok a → Q a (m s).1

pub ok-inj {ℓ} : {A : Type ℓ} {a b : A} → ◌≡◌ {A = Result LedgerError A} (ok a) (ok b) → a ≡ b
ok-inj {A} {a} e = ap (from_ok a) e
  where
    from_ok : A → Result LedgerError A → A
    from_ok d (ok x) = x
    from_ok d (err x) = d

module _ {ℓ} {A : Type ℓ} {P : Ledger → Type 0} {Q : A → Ledger → Type 0} where
  pub Post-pure : (a : A) → ((s : Ledger) → P s → Q a s) → Post P (pure a) Q
  Post-pure a h = record { at = λ s p b e. subst (λ x. Q x s) (ok-inj e) (h s p) }

  pub Post-raise : (e : LedgerError) → Post P (raise e) Q
  Post-raise x = record { at = λ s p b e. cc }

  -- A method that only reads the state.
  pub Post-reads :
      (f : Ledger → Result LedgerError A)
      → ((s : Ledger) → P s → (a : A) → f s ≡ ok a → Q a s)
      → Post P (reads f) Q
  Post-reads f h = record { at = λ s p a e. h s p a e }

  pub Post-if :
      (b : Bool) {m n : Exec A}
      → (b ≡ true → Post P m Q)
      → (b ≡ false → Post P n Q)
      → Post P (if b then m else n) Q
  Post-if true k l = k refl
  Post-if false k l = l refl

  pub Post-weaken :
      {P' : Ledger → Type 0} {m : Exec A} → ((s : Ledger) → P' s → P s) → Post P m Q → Post P' m Q
  Post-weaken h p = record { at = λ s q a e. p.at s (h s q) a e }

module _ {ℓ κ} {A : Type ℓ} {B : Type κ} where
  continue-ok :
      (r : Result LedgerError A) (f : A → Exec B) (t : Ledger) (b : B)
      → (continue r f t).0 ≡ ok b
      → (a : A) × (r ≡ ok a) × ((f a t).0 ≡ ok b) × ((continue r f t).1 ≡ (f a t).1)
  continue-ok (ok a) f t b e = (a, refl, e, refl)
  continue-ok (err x) f t b e = cc

  module _ {P : Ledger → Type 0} {R : A → Ledger → Type 0} {Q : B → Ledger → Type 0} where
    pub Post-bind :
        {m : Exec A} {f : A → Exec B}
        → Post P m R
        → ((a : A) → Post (R a) (f a) Q)
        → Post P (m >>= f) Q
    unfolding ◌>>=◌
    Post-bind {m} {f} pm pf = record {
      at = λ s p b e.
          let (a, ea, eb, same) = continue-ok (m s).0 f (m s).1 b e in
          subst (Q b) (sym same) ((pf a).at (m s).1 (pm.at s p a ea) b eb);
    }

-- A quiet method keeps what is stored.
pub Post-Quiet {ℓ} :
    {A : Type ℓ} {m : Exec A} (id : String) (t : Turn)
    → Quiet m
    → Post (Stored id t) m (λ _. Stored id t)
Post-Quiet id t q = record { at = λ s h a e. ap (lookup id) (q.at s).0 ∙ h }

module _ {ℓ κ} {A : Type ℓ} {B : Type κ} where
  -- A quiet step of a longer method.
  pub Post-then :
      (id : String) (t : Turn) {Q : B → Ledger → Type 0} {m : Exec A} {f : A → Exec B}
      → Quiet m
      → ((a : A) → Post (Stored id t) (f a) Q)
      → Post (Stored id t) (m >>= f) Q
  Post-then id t q k = Post-bind (Post-Quiet id t q) k

-- A write that succeeds has stored its turn.
pub Post-write_turn :
    (id : String) (u : Turn) {P : Ledger → Type 0}
    → ((s : Ledger) → P s → u.id ≡ id)
    → Post P (write_turn u) (λ _. Stored id u)
unfolding write_turn write_json_atomic next_seq call ◌>>=◌
Post-write_turn id u named = record {
  at = λ s p a e.
      let same : u.id ≡ id = named s p in
      ground (arith, lookup-insert u.id id (good u) s.turns, eq_iff u.id id);
}

pub Post-read_turn :
    (id : String) → Post IsKeyed (reads (read_turn id)) (λ t s. IsKeyed s × Stored id t s)
Post-read_turn id = record { at = λ s k t e. (k, Stored-of_read id s e) }

pub Post-IsKeyed {ℓ} : {A : Type ℓ} {m : Exec A} → Keeps m → Post IsKeyed m (λ _. IsKeyed)
Post-IsKeyed k = record { at = λ s h a e. ((k.at s).safe h).0 }

pub ruleset post_rules = (Post-if, Post-raise, Post-then, quiet_rules)
