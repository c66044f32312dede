-- ===== src/Ledger/Call.antt =====
-- What stands around the ledger's methods: calls that read and change the ledger's state, with an
-- error type of their own.
use gamchi.Prelude.{◌≡◌, ap, ◌∙◌, Result, ok, err, map_err, Result-cases, inl, inr}
use gamchi.Ledger.Error.{LedgerError}
use gamchi.Ledger.State.{Ledger}
use gamchi.Ledger.Exec.{Exec}

abbrev pub Call {ℓ κ} : Type κ → Type ℓ → Type (ℓ ⊔ κ)
Call E A = Ledger → Result E A × Ledger

module _ {ℓ κ} {E : Type κ} {A : Type ℓ} where
  abbrev pub pure : A → Call E A
  pure a s = (ok a, s)

  abbrev pub fail : E → Call E A
  fail e s = (err e, s)

  abbrev pub lift : Result E A → Call E A
  lift r s = (r, s)

-- A method of the ledger, with its error as the caller tells it.
abbrev pub method {ℓ κ} : {E : Type κ} {A : Type ℓ} → (LedgerError → E) → Exec A → Call E A
method tell m s = let (r, t) = m s in (map_err tell r, t)

module _ {ℓ κ μ} {E : Type κ} {A : Type ℓ} {B : Type μ} where
  abbrev pub continue : Result E A → (A → Call E B) → Call E B
  continue (ok a) f s = f a s
  continue (err e) f s = (err e, s)

  infixl 5 ◌>>=◌
  abbrev pub ◌>>=◌ : Call E A → (A → Call E B) → Call E B
  ◌>>=◌ m f s = let (r, t) = m s in continue r f t

infixl 5 ◌>>◌
abbrev pub ◌>>◌ {ℓ κ μ} : {E : Type κ} {A : Type ℓ} {B : Type μ} → Call E A → Call E B → Call E B
m >> n = m >>= λ _. n

-- A call that succeeds after another one, taken apart.
pub bind-ok {ℓ κ μ ν} :
    {E : Type κ} {A : Type ℓ} {B : Type μ} {P : Type ν} (m : Call E A) (f : A → Call E B)
    (s u : Ledger) (b : B)
    → (m >>= f) s ≡ (ok b, u)
    → ((a : A) (t : Ledger) → m s ≡ (ok a, t) → f a t ≡ (ok b, u) → P)
    → P
bind-ok m f s u b h use_parts = elim (Result-cases (m s).0) [
  | inl (a, e) ↦ use_parts a (m s).1 (λ i. (e i, (m s).1)) (rw e at h)
  | inr (x, e) ↦ absurd (cc (rw e at h))
]

pub method-ok {ℓ κ} :
    {E : Type κ} {A : Type ℓ} (tell : LedgerError → E) (m : Exec A) (s t : Ledger) (a : A)
    → method tell m s ≡ (ok a, t)
    → m s ≡ (ok a, t)
method-ok tell m s t a h = elim (Result-cases (m s).0) [
  | inl (b, e) ↦
      let same : b ≡ a = cc (rw e at h) in
      let after : (m s).1 ≡ t = ap (λ p. p.1) h in
      (λ i. (e i, (m s).1)) ∙ (λ i. (ok (same i), after i))
  | inr (x, e) ↦ absurd (cc (rw e at h))
]

pub lift-ok {ℓ κ} :
    {E : Type κ} {A : Type ℓ} (r : Result E A) (s t : Ledger) (a : A)
    → lift r s ≡ (ok a, t)
    → (r ≡ ok a) × (s ≡ t)
lift-ok r s t a h = (ap (λ p. p.0) h, ap (λ p. p.1) h)
