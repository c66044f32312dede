-- ===== src/Prelude/Assoc.antt =====
-- A directory of named files, or a map, as an association list in directory order: a write
-- replaces an entry in place or adds one at the end.
use Prim.Native.String.{String}
use mathlib.Core.Path.{◌≡◌, refl, sym}
use mathlib.Core.Logic.{inl, inr}
use mathlib.Core.Option.{Option, none, some}
use mathlib.Core.List.{List, [], ◌∷◌, Memᴰ}
use native.Mathlib.Omega.{arith}
use text.Mathlib.Text.{◌==◌}
use text.Mathlib.TextEquality.{eq_iff}
use gamchi.Prelude.Tests.{if◌then◌else◌, Bool-cases}

abbrev pub Assoc {ℓ} : Type ℓ → Type ℓ
Assoc V = List (String × V)

module _ {ℓ} {V : Type ℓ} where
  unfoldable pub lookup : String → Assoc V → Option V
  lookup key [] = none
  lookup key ((name, body) ∷ dir) = if name == key then some body else lookup key dir

  unfoldable pub insert : String → V → Assoc V → Assoc V
  insert key body [] = (key, body) ∷ []
  insert key body ((name, old) ∷ dir) =
      if name == key then (key, body) ∷ dir else (name, old) ∷ insert key body dir

  unfoldable pub remove : String → Assoc V → Assoc V
  remove key [] = []
  remove key ((name, old) ∷ dir) =
      let others = remove key dir in if name == key then others else (name, old) ∷ others

  unfoldable pub keys : Assoc V → List String
  keys [] = []
  keys ((name, body) ∷ dir) = name ∷ keys dir

  pub lookup-insert :
      (key other : String) (body : V) (dir : Assoc V)
      → lookup other (insert key body dir) ≡ (if key == other then some body else lookup other dir)
  unfolding lookup insert
  lookup-insert key other body [] = refl
  lookup-insert key other body ((name, old) ∷ dir) =
      let rest = lookup-insert key other body dir in
      ground (arith, rest, eq_iff name other, eq_iff name key, eq_iff key other)

  pub lookup-remove :
      (key other : String) (dir : Assoc V)
      → lookup other (remove key dir) ≡ (if key == other then none else lookup other dir)
  unfolding lookup remove
  lookup-remove key other [] = ground arith
  lookup-remove key other ((name, old) ∷ dir) =
      let rest = lookup-remove key other dir in
      ground (arith, rest, eq_iff name other, eq_iff name key, eq_iff key other)

module _ {ℓ} {V : Type ℓ} where
  pub mem-keys :
      (key : String) (dir : Assoc V) {body : V} → lookup key dir ≡ some body → Memᴰ key (keys dir)
  unfolding lookup keys
  mem-keys key [] h = cc
  mem-keys key ((name, old) ∷ dir) {body} h = elim (Bool-cases (name == key)) [
    | inl same ↦ Memᴰ.head (sym ((eq_iff name key).0 same))
    | inr apart ↦ Memᴰ.tail (mem-keys key dir (rw apart at h))
  ]

pub ruleset assoc_laws = (lookup-insert, lookup-remove)
