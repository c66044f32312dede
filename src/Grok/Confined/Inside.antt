-- ===== src/Grok/Confined/Inside.antt =====
-- Where a confined path lies, read as text: crates/adapter-grok/src/turn.rs, `confined`.
use Prim.Native.Char.{Char, code}
use gamchi.Prelude.{
  String, eq_iff, ◌≡◌, refl, ap, subst, Bool, true, false, not, List, [], ◌∷◌, ◌++◌, Option, none,
  some, Result, ok, err, nat_eq, All, All-append, arith, inl, inr, Bool-cases, Option-cases,
  if◌then◌else◌,
}
use gamchi.Prelude.Text.{is_absolute, all_chars, into_first, join_path}
use gamchi.Grok.Confined.{
  Component, root_dir, cur_dir, parent_dir, normal, segments, component_of, collect, components,
  PathBuf, drop_last, visit, walk, same_component, parts, is_prefix, Refusal, lexical, below,
  within, confined,
}

abbrev pub has_no_slash : String → Bool
has_no_slash s = all_chars (λ c. not (nat_eq c b'/')) s

-- The name of one file: no separator in it, and neither empty nor a dot or two.
abbrev pub IsName : String → Type 0
IsName s = (component_of s ≡ some (normal s)) × (has_no_slash s ≡ true)

NoSlash : String → Type 0
NoSlash s = has_no_slash s ≡ true

into_first-NoSlash :
    (c : Char) (l : List String)
    → nat_eq (code c) b'/' ≡ false
    → All NoSlash l
    → All NoSlash (into_first c l)
unfolding NoSlash
into_first-NoSlash c [] h k = (rw h refl, tt)
into_first-NoSlash c (s ∷ l) h (p, k) = (rw (h, p) refl, k)

segments-NoSlash : (s : String) → All NoSlash (segments s)
unfolding segments NoSlash
segments-NoSlash String.[] = (refl, tt)
segments-NoSlash (String.◌∷◌ c s) = elim (Bool-cases (nat_eq (code c) b'/')) [
  | inl slash ↦ rw (segments, slash) (refl, segments-NoSlash s)
  | inr other ↦ rw (segments, other) (into_first-NoSlash c (segments s) other (segments-NoSlash s))
]

-- A component that names a file, names one.
Named : Component → Type 0
Named (normal s) = IsName s
Named _ = Unit

normal_text : (s t : String) → component_of s ≡ some (normal t) → s ≡ t
normal_text s t h = ground arith

component_of-Named :
    (s : String) (c : Component) → component_of s ≡ some c → has_no_slash s ≡ true → Named c
unfolding Named
component_of-Named s root_dir h k = tt
component_of-Named s cur_dir h k = tt
component_of-Named s parent_dir h k = tt
component_of-Named s (normal t) h k =
    subst (λ x. (component_of x ≡ some (normal t)) × (has_no_slash x ≡ true)) (normal_text s t h)
      (h, k)

collect-Named : (l : List String) → All NoSlash l → All Named (collect l)
unfolding collect NoSlash
collect-Named [] h = tt
collect-Named (s ∷ l) (p, h) = elim (Option-cases (component_of s)) [
  | inl skipped ↦ rw (collect, skipped) (collect-Named l h)
  | inr (c, e) ↦ rw (collect, e) (component_of-Named s c e p, collect-Named l h)
]

components-Named : (path : String) → All Named (components path)
unfolding components Named
components-Named path = elim (Bool-cases (is_absolute path)) [
  | inl absolute ↦
      rw (components, absolute) (tt, collect-Named (segments path) (segments-NoSlash path))
  | inr relative ↦ rw (components, relative) (collect-Named (segments path) (segments-NoSlash path))
]

drop_last-IsName : (l : List String) → All IsName l → All IsName (drop_last l)
drop_last-IsName [] h = tt
drop_last-IsName (s ∷ []) h = tt
drop_last-IsName (s ∷ t ∷ l) (p, h) = (p, drop_last-IsName (t ∷ l) h)

visit-IsName :
    (c : Component) (out : PathBuf)
    → Named c
    → All IsName out.names
    → All IsName (visit c out).names
unfolding Named
visit-IsName root_dir out n h = tt
visit-IsName cur_dir out n h = h
visit-IsName parent_dir out n h = drop_last-IsName out.names h
visit-IsName (normal s) out n h = All-append IsName out.names (s ∷ []) h (n, tt)

walk-IsName :
    (l : List Component) (out : PathBuf)
    → All Named l
    → All IsName out.names
    → All IsName (walk l out).names
unfolding walk
walk-IsName [] out n h = h
walk-IsName (c ∷ l) out (p, n) h = walk-IsName l (visit c out) n (visit-IsName c out p h)

same_component-eq : (c d : Component) → same_component c d ≡ true → c ≡ d
same_component-eq root_dir root_dir h = refl
same_component-eq cur_dir cur_dir h = refl
same_component-eq parent_dir parent_dir h = refl
same_component-eq (normal s) (normal t) h = ap normal ((eq_iff s t).0 h)
same_component-eq root_dir cur_dir h = cc
same_component-eq root_dir parent_dir h = cc
same_component-eq root_dir (normal t) h = cc
same_component-eq cur_dir root_dir h = cc
same_component-eq cur_dir parent_dir h = cc
same_component-eq cur_dir (normal t) h = cc
same_component-eq parent_dir root_dir h = cc
same_component-eq parent_dir cur_dir h = cc
same_component-eq parent_dir (normal t) h = cc
same_component-eq (normal s) root_dir h = cc
same_component-eq (normal s) cur_dir h = cc
same_component-eq (normal s) parent_dir h = cc

refuted : false ≡ true → ⊥
refuted e = cc

-- A prefix, and what follows it.
is_prefix-rest :
    (p l : List Component) → is_prefix p l ≡ true → (rest : List Component) × (l ≡ p ++ rest)
unfolding is_prefix
is_prefix-rest [] l h = (l, refl)
is_prefix-rest (c ∷ p) [] h = cc
is_prefix-rest (c ∷ p) (d ∷ l) h = elim (Bool-cases (same_component c d)) [
  | inl same ↦
      let (rest, e) = is_prefix-rest p l (rw same at h) in
      (rest, cc (same_component-eq c d same, e))
  | inr apart ↦ elim (refuted (rw apart at h)) [ ]
]

-- The path starts with the components of the root and goes on with file names only: it names
-- something below the root without climbing.
abbrev pub Inside : String → PathBuf → Type 0
Inside root out =
    ((rest : List Component) × (parts out ≡ components root ++ rest)) × All IsName out.names

ok_same : {a b : PathBuf} → ◌≡◌ {A = Result Refusal PathBuf} (ok a) (ok b) → a ≡ b
ok_same e = cc

not_ok : {e : Refusal} {a : PathBuf} → ◌≡◌ {A = Result Refusal PathBuf} (err e) (ok a) → ⊥
not_ok e = cc

below-Inside :
    (root : String) (out : PathBuf) {found : PathBuf}
    → below root out ≡ ok found
    → All IsName out.names
    → Inside root found
below-Inside root out h k = elim (Bool-cases (is_prefix (components root) (parts out))) [
  | inl under ↦
      subst (Inside root) (ok_same (rw (below, under) at h))
        (is_prefix-rest (components root) (parts out) under, k)
  | inr away ↦ elim (not_ok (rw (below, away) at h)) [ ]
]

within-Inside :
    (root : Option String) (path : String) {out : PathBuf}
    → within root path ≡ ok out
    → (r : String) × (root ≡ some r) × Inside r out
within-Inside none path h = elim (not_ok h) [ ]
within-Inside (some root) path h =
    let joined = if is_absolute path then path else join_path root path in
    let names =
      walk-IsName (components joined) (record { rooted = false; names = [] })
        (components-Named joined) tt in
    (root, refl, below-Inside root (lexical root path) h names)

-- A path that `confined` lets through lies below the canonical working directory, whatever text an
-- agent sent: its components are those of that directory and then names of files, none of which is
-- empty, a dot or two, or has a separator in it.
pub confined-Inside :
    (canonicalize : String → Option String) (cwd path : String) {out : PathBuf}
    → confined canonicalize cwd path ≡ ok out
    → (root : String) × (canonicalize cwd ≡ some root) × Inside root out
unfolding confined
confined-Inside canonicalize cwd path h = within-Inside (canonicalize cwd) path h
