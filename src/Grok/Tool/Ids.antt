-- ===== src/Grok/Tool/Ids.antt =====
-- The ids that the adapter gives tool calls: `sanitize_id` of crates/adapter-grok/src/map.rs, held
-- against the `validate_id` of crates/core/src/ledger.rs that every stored id must pass.
use Prim.Native.Char.{Char, code, len_utf8, len_utf8_def}
use Prim.Native.String.{len}
use Prim.Native.String.len.{nil, cons}
use gamchi.Prelude.{
  ℕ, ◌-◌, ◌≡◌, ◌≤◌, refl, Bool, true, false, ◌&&◌, String, inl, inr, ok, arith, ltb, leb, leb→le,
  Bool-cases,
}
use gamchi.Prelude.Text.{all_chars, is_empty, truncate}
use gamchi.Ledger.Ids.{is_id_char, validate_id}
use gamchi.Grok.Tool.{id_char, map_chars, or_id, cut, sanitize_id}

id_char-is_id_char : (c : Char) → is_id_char (code (id_char c)) ≡ true
id_char-is_id_char c = elim (Bool-cases (is_id_char (code c))) [
  | inl allowed ↦ rw (allowed, allowed)
  | inr other ↦ rw other
]

map_chars-ids : (s : String) → all_chars is_id_char (map_chars id_char s) ≡ true
map_chars-ids String.[] = refl
map_chars-ids (String.◌∷◌ c s) = rw (id_char-is_id_char c, map_chars-ids s)

or_id-ids : (s : String) → all_chars is_id_char s ≡ true → all_chars is_id_char (or_id s) ≡ true
or_id-ids String.[] h = refl
or_id-ids (String.◌∷◌ c s) h = h

or_id-nonempty : (s : String) → is_empty (or_id s) ≡ false
or_id-nonempty String.[] = refl
or_id-nonempty (String.◌∷◌ c s) = refl

truncate-len : (b : ℕ) (s : String) → len (truncate b s) ≤ b
truncate-len b String.[] = omega (arith, nil)
truncate-len b (String.◌∷◌ c s) = elim (Bool-cases (leb (len_utf8 c) b)) [
  | inl fits ↦ rw fits (
      omega (
        arith,
        cons c (truncate (b - len_utf8 c) s),
        truncate-len (b - len_utf8 c) s,
        leb→le (len_utf8 c) b fits,
      ))
  | inr over ↦ rw over (omega (arith, nil))
]

and-both : (a b : Bool) → (a && b) ≡ true → (a ≡ true) × (b ≡ true)
and-both true b h = (refl, h)
and-both false b h = cc

truncate-ids :
    (b : ℕ) (s : String)
    → all_chars is_id_char s ≡ true
    → all_chars is_id_char (truncate b s) ≡ true
truncate-ids b String.[] h = refl
truncate-ids b (String.◌∷◌ c s) h =
    let (first, rest) = and-both (is_id_char (code c)) (all_chars is_id_char s) h in
    elim (Bool-cases (leb (len_utf8 c) b)) [
      | inl fits ↦ rw (fits, first, truncate-ids (b - len_utf8 c) s rest)
      | inr over ↦ rw over
    ]

len_utf8-le : (c : Char) → len_utf8 c ≤ 4
len_utf8-le c = rw (len_utf8_def c) (ground arith)

truncate-nonempty :
    (b : ℕ) (s : String) → 4 ≤ b → is_empty s ≡ false → is_empty (truncate b s) ≡ false
truncate-nonempty b String.[] le h = h
truncate-nonempty b (String.◌∷◌ c s) le h = elim (Bool-cases (leb (len_utf8 c) b)) [
  | inl fits ↦ rw fits
  | inr over ↦ ground (arith, len_utf8-le c)
]

cut-ids : (s : String) → all_chars is_id_char s ≡ true → all_chars is_id_char (cut s) ≡ true
cut-ids s h = elim (Bool-cases (ltb 128 (len s))) [
  | inl long ↦ rw long (truncate-ids 128 s h)
  | inr short ↦ rw short h
]

cut-nonempty : (s : String) → is_empty s ≡ false → is_empty (cut s) ≡ false
cut-nonempty s h = elim (Bool-cases (ltb 128 (len s))) [
  | inl long ↦ rw long (truncate-nonempty 128 s (ground arith) h)
  | inr short ↦ rw short h
]

cut-len : (s : String) → ltb 128 (len (cut s)) ≡ false
cut-len s = elim (Bool-cases (ltb 128 (len s))) [
  | inl long ↦ rw long (ground (arith, truncate-len 128 s))
  | inr short ↦ rw short short
]

-- Whatever id an ACP agent gives a tool call, the id that the adapter makes of it passes the
-- ledger's `validate_id`: it is not empty, has at most 128 bytes and only id characters.
pub sanitize_id-IsValid : (raw : String) → validate_id (sanitize_id raw) ≡ ok tt
unfolding validate_id sanitize_id
sanitize_id-IsValid raw =
    let s = or_id (map_chars id_char raw) in
    rw (
      cut-nonempty s (or_id-nonempty (map_chars id_char raw)),
      cut-len s,
      cut-ids s (or_id-ids (map_chars id_char raw) (map_chars-ids raw)),
    )
