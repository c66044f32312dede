-- ===== src/Grok/Defaults/Trim.antt =====
-- Trimming twice: `trim`, as crates/adapter-grok/src/defaults.rs uses it.
use Prim.Native.Char.{code}
use gamchi.Prelude.{◌≡◌, refl, ap, ◌∙◌, Bool, false, ◌&&◌, String, inl, inr, Bool-cases}
use gamchi.Prelude.Text.{is_empty, is_whitespace, trim_start, cons_trim, trim_end, trim}

abbrev starts_blank : String → Bool
starts_blank String.[] = false
starts_blank (String.◌∷◌ c s) = is_whitespace (code c)

trim_start-solid : (s : String) → starts_blank (trim_start s) ≡ false
trim_start-solid String.[] = refl
trim_start-solid (String.◌∷◌ c s) = elim (Bool-cases (is_whitespace (code c))) [
  | inl blank ↦ rw blank (trim_start-solid s)
  | inr solid ↦ rw solid solid
]

solid-trim_start : (s : String) → starts_blank s ≡ false → trim_start s ≡ s
solid-trim_start String.[] h = refl
solid-trim_start (String.◌∷◌ c s) h = rw h

solid-trim_end : (s : String) → starts_blank s ≡ false → starts_blank (trim_end s) ≡ false
solid-trim_end String.[] h = refl
solid-trim_end (String.◌∷◌ c s) h = rw (trim_end, cons_trim, h) h

trim_end-trim_end : (s : String) → trim_end (trim_end s) ≡ trim_end s
trim_end-trim_end String.[] = refl
trim_end-trim_end (String.◌∷◌ c s) =
    elim (Bool-cases (is_whitespace (code c) && is_empty (trim_end s))) [
      | inl dropped ↦ rw (trim_end, cons_trim, dropped)
      | inr kept ↦ rw (trim_end, cons_trim, kept, trim_end, cons_trim, trim_end-trim_end s, kept)
    ]

pub trim-trim : (s : String) → trim (trim s) ≡ trim s
trim-trim s =
    ap trim_end (solid-trim_start (trim s) (solid-trim_end (trim_start s) (trim_start-solid s)))
    ∙ trim_end-trim_end (trim_start s)
