-- ===== src/Prelude/Indexed.antt =====
-- Lists read and written by index.
use Prim.Native.Nat.{ℕ, zero, suc}
use mathlib.Core.Path.{◌≡◌, refl, sym, ap, ◌∙◌}
use mathlib.Core.Logic.{◌⊎◌, inl, inr}
use mathlib.Core.Bool.{Bool, true, false}
use mathlib.Core.Option.{Option, none, some}
use mathlib.Core.List.{List, [], ◌∷◌, ◌++◌}
use gamchi.Prelude.Tests.{Bool-cases}
use gamchi.Prelude.Lists.{length, get_elem?, set, any, find, position, one_on}

one_on-some : (o : Option ℕ) {i : ℕ} → one_on o ≡ some i → (j : ℕ) × (o ≡ some j) × (i ≡ suc j)
one_on-some none h = cc
one_on-some (some j) h = (j, refl, cc)

one_on-none : (o : Option ℕ) → one_on o ≡ none → o ≡ none
one_on-none none h = refl
one_on-none (some j) h = cc

first-index : (i : ℕ) → some 0 ≡ some i → i ≡ 0
first-index i h = cc

module _ {ℓ} {A : Type ℓ} where
  pub some-inj : {x y : A} → some x ≡ some y → x ≡ y
  some-inj h = cc

  pub get_elem?-set :
      (xs : List A) (i : ℕ) (v : A) {x : A}
      → get_elem? xs i ≡ some x
      → get_elem? (set xs i v) i ≡ some v
  get_elem?-set [] i v h = cc
  get_elem?-set (x ∷ xs) zero v h = refl
  get_elem?-set (x ∷ xs) (suc i) v h = get_elem?-set xs i v h

  -- An element after a write is the written one, or stood there before.
  pub set-cases :
      (xs : List A) (i j : ℕ) (v : A) {y : A}
      → get_elem? (set xs i v) j ≡ some y
      → (y ≡ v) ⊎ (get_elem? xs j ≡ some y)
  set-cases [] i j v h = inr h
  set-cases (x ∷ xs) zero zero v h = inl cc
  set-cases (x ∷ xs) zero (suc j) v h = inr h
  set-cases (x ∷ xs) (suc i) zero v h = inr h
  set-cases (x ∷ xs) (suc i) (suc j) v h = set-cases xs i j v h

  -- Where an element stood, it stands after the write, or the index is the written one.
  pub set-keeps :
      (xs : List A) (i j : ℕ) (v : A) {y : A}
      → get_elem? xs j ≡ some y
      → (get_elem? (set xs i v) j ≡ some y) ⊎ (i ≡ j)
  set-keeps [] i j v h = inl h
  set-keeps (x ∷ xs) zero zero v h = inr refl
  set-keeps (x ∷ xs) zero (suc j) v h = inl h
  set-keeps (x ∷ xs) (suc i) zero v h = inl h
  set-keeps (x ∷ xs) (suc i) (suc j) v h = elim (set-keeps xs i j v h) [
    | inl kept ↦ inl kept
    | inr same ↦ inr (ap suc same)
  ]

  pub get_elem?-append :
      (xs ys : List A) (i : ℕ) {x : A} → get_elem? xs i ≡ some x → get_elem? (xs ++ ys) i ≡ some x
  get_elem?-append [] ys i h = cc
  get_elem?-append (x ∷ xs) ys zero h = h
  get_elem?-append (x ∷ xs) ys (suc i) h = get_elem?-append xs ys i h

  pub get_elem?-push : (xs : List A) (v : A) → get_elem? (xs ++ v ∷ []) (length xs) ≡ some v
  get_elem?-push [] v = refl
  get_elem?-push (x ∷ xs) v = get_elem?-push xs v

  pub push-cases :
      (xs : List A) (v : A) (j : ℕ) {y : A}
      → get_elem? (xs ++ v ∷ []) j ≡ some y
      → (y ≡ v) ⊎ (get_elem? xs j ≡ some y)
  push-cases [] v zero h = inl cc
  push-cases [] v (suc j) h = cc
  push-cases (x ∷ xs) v zero h = inr h
  push-cases (x ∷ xs) v (suc j) h = push-cases xs v j h

  pub any-position : (p : A → Bool) (xs : List A) → position p xs ≡ none → any p xs ≡ false
  any-position p [] h = refl
  any-position p (y ∷ ys) h = elim (Bool-cases (p y)) [
    | inl e ↦ absurd (cc (rw e at h))
    | inr e ↦ rw (any, e) (any-position p ys (one_on-none (position p ys) (rw e at h)))
  ]

  pub position-get_elem? :
      (p : A → Bool) (xs : List A) {i : ℕ}
      → position p xs ≡ some i
      → (x : A) × (get_elem? xs i ≡ some x) × (p x ≡ true)
  position-get_elem? p [] h = cc
  position-get_elem? p (x ∷ xs) {i} h = elim (Bool-cases (p x)) [
    | inl first ↦ (x, ap (get_elem? (x ∷ xs)) (first-index i (rw first at h)), first)
    | inr later ↦
        let (j, at, e) = one_on-some (position p xs) (rw later at h) in
        let (y, found, passes) = position-get_elem? p xs at in
        (y, ap (get_elem? (x ∷ xs)) e ∙ found, passes)
  ]

  pub find-get_elem? :
      (p : A → Bool) (xs : List A) (i : ℕ) {x : A}
      → get_elem? xs i ≡ some x
      → p x ≡ true
      → (y : A) × (j : ℕ) × (find p xs ≡ some y) × (get_elem? xs j ≡ some y)
  find-get_elem? p [] i h t = cc
  find-get_elem? p (z ∷ xs) zero h t = (z, 0, rw (ap p (some-inj h) ∙ t), refl)
  find-get_elem? p (z ∷ xs) (suc i) h t = elim (Bool-cases (p z)) [
    | inl first ↦ (z, 0, rw first, refl)
    | inr later ↦
        let (y, j, found, stands) = find-get_elem? p xs i h t in (y, suc j, rw later found, stands)
  ]

  -- What `find` finds stands in the list, and passes.
  pub find-some :
      (p : A → Bool) (xs : List A) {x : A}
      → find p xs ≡ some x
      → (i : ℕ) × (get_elem? xs i ≡ some x) × (p x ≡ true)
  find-some p [] h = cc
  find-some p (z ∷ xs) {x} h = elim (Bool-cases (p z)) [
    | inl first ↦
        let same = some-inj {x = z} {y = x} (rw first at h) in
        (0, ap (λ y. some y) same, ap p (sym same) ∙ first)
    | inr later ↦
        let (i, stands, passes) = find-some p xs (rw later at h) in (suc i, stands, passes)
  ]
