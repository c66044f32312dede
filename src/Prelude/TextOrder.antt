-- ===== src/Prelude/TextOrder.antt =====
-- The order on texts that `cmp` gives: total and transitive.
use Prim.Native.Char.{Char, code}
use Prim.Native.String.{String, compare}
use Prim.Native.String.compare.{nil-cons, cons-nil, cons-cons}
use mathlib.Core.Path.{◌≡◌, refl}
use mathlib.Core.Bool.{Bool, true, false}
use native.Mathlib.Omega.{arith}
use text.Mathlib.Text.{is_le}
use text.Mathlib.TextPositions.{compare_refl}
use gamchi.Prelude.Tests.{ltb, nat_eq, if◌then◌else◌}

-- `a <= b` on texts.
abbrev pub text_le : String → String → Bool
text_le a b = is_le (compare a b)

le-cons :
    (c d : Char) (s t : String)
    → text_le (String.◌∷◌ c s) (String.◌∷◌ d t) ≡ (
        if ltb (code c) (code d)
        then true
        else if nat_eq (code c) (code d)
        then text_le s t
        else false)
le-cons c d s t = ground (arith, cons-cons c d s t)

pub text_le_self : (s : String) → text_le s s ≡ true
text_le_self s = rw (compare_refl s) refl

pub text_le_total : (s t : String) → text_le s t ≡ false → text_le t s ≡ true
text_le_total String.[] String.[] h = refl
text_le_total String.[] (String.◌∷◌ d t) h = cc (h, nil-cons d t)
text_le_total (String.◌∷◌ c s) String.[] h = rw (nil-cons c s) refl
text_le_total (String.◌∷◌ c s) (String.◌∷◌ d t) h =
    ground (arith, le-cons c d s t, le-cons d c t s, text_le_total s t)

pub text_le_trans : (s t u : String) → text_le s t ≡ true → text_le t u ≡ true → text_le s u ≡ true
text_le_trans String.[] t String.[] h k = refl
text_le_trans String.[] t (String.◌∷◌ e u) h k = rw (nil-cons e u) refl
text_le_trans (String.◌∷◌ c s) String.[] u h k = cc (h, cons-nil c s)
text_le_trans (String.◌∷◌ c s) (String.◌∷◌ d t) String.[] h k = cc (k, cons-nil d t)
text_le_trans (String.◌∷◌ c s) (String.◌∷◌ d t) (String.◌∷◌ e u) h k =
    ground (arith, le-cons c d s t, le-cons d e t u, le-cons c e s u, text_le_trans s t u)
