-- ===== src/Grok/Confined.antt =====
-- The lexical confinement of the paths that an agent may read and write: `confined`,
-- `read_text_file` and `write_text_file` of crates/adapter-grok/src/turn.rs.
pub mod Inside
use Prim.Native.Char.{Char, code}
use gamchi.Prelude.{
  String, ◌==◌, Bool, true, false, ◌&&◌, List, [], ◌∷◌, ◌++◌, map, Option, none, some, Result, ok,
  err, nat_eq, and_then, if◌then◌else◌,
}
use gamchi.Prelude.Text.{is_absolute, join_path, into_first}

-- `std::path::Component` on Unix.
pub data Component : Type 0 where
  root_dir cur_dir parent_dir : Component
  normal : String → Component

-- The texts between the separators.
unfoldable pub segments : String → List String
segments String.[] = "" ∷ []
segments (String.◌∷◌ c s) =
    let rest = segments s in if nat_eq (code c) b'/' then "" ∷ rest else into_first c rest

abbrev pub component_of : String → Option Component
component_of s =
    if s == ""
    then none
    else if s == "."
    then some cur_dir
    else if s == ".."
    then some parent_dir
    else some (normal s)

unfoldable pub collect : List String → List Component
collect [] = []
collect (s ∷ l) = let rest = collect l in elim (component_of s) [ none ↦ rest | some c ↦ c ∷ rest ]

-- `components`. Rust drops a `.` that does not come first; here it stays, and the loop drops it.
unfoldable pub components : String → List Component
components path = (if is_absolute path then root_dir ∷ [] else []) ++ collect (segments path)

-- The path that the loop builds.
pub record PathBuf : Type 0 where
  pub rooted : Bool
  pub names : List String

abbrev pub drop_last : List String → List String
drop_last [] = []
drop_last (s ∷ []) = []
drop_last (s ∷ t ∷ l) = s ∷ drop_last (t ∷ l)

-- One round of the loop. `pop` at the root, or of an empty path, does nothing.
abbrev pub visit : Component → PathBuf → PathBuf
visit root_dir out = record { rooted = true; names = [] }
visit cur_dir out = out
visit parent_dir out = record out { names = drop_last out.names }
visit (normal s) out = record out { names = out.names ++ s ∷ [] }

unfoldable pub walk : List Component → PathBuf → PathBuf
walk [] out = out
walk (c ∷ rest) out = walk rest (visit c out)

abbrev pub same_component : Component → Component → Bool
same_component root_dir root_dir = true
same_component cur_dir cur_dir = true
same_component parent_dir parent_dir = true
same_component (normal s) (normal t) = s == t
same_component _ _ = false

abbrev pub parts : PathBuf → List Component
parts out = (if out.rooted then root_dir ∷ [] else []) ++ map normal out.names

-- `starts_with`, component by component.
unfoldable pub is_prefix : List Component → List Component → Bool
is_prefix [] l = true
is_prefix (c ∷ rest) [] = false
is_prefix (c ∷ rest) (d ∷ l) = same_component c d && is_prefix rest l

-- Why a path is refused: the working directory has no canonical path, or the path leads out of it.
pub data Refusal : Type 0 where
  no_root outside : Refusal

abbrev pub lexical : String → String → PathBuf
lexical root path =
    walk (components (if is_absolute path then path else join_path root path))
      (record { rooted = false; names = [] })

abbrev pub below : String → PathBuf → Result Refusal PathBuf
below root out = if is_prefix (components root) (parts out) then ok out else err outside

abbrev pub within : Option String → String → Result Refusal PathBuf
within none path = err no_root
within (some root) path = below root (lexical root path)

-- `canonicalize` is the operating system's.
unfoldable pub confined :
    (canonicalize : String → Option String) → String → String → Result Refusal PathBuf
confined canonicalize cwd path = within (canonicalize cwd) path

-- `write_text_file` and `read_text_file`, with what the operating system does given.
unfoldable pub write_text_file :
    {E : Type 0} (canonicalize : String → Option String) (refused : Refusal → E)
    (write : PathBuf → String → Result E (Unit {0}))
    → String
    → String
    → String
    → Result E (Unit {0})
write_text_file canonicalize refused write cwd path content =
    elim (confined canonicalize cwd path) [ ok out ↦ write out content | err e ↦ err (refused e) ]

unfoldable pub read_text_file :
    {E : Type 0} (canonicalize : String → Option String) (refused : Refusal → E)
    (read : PathBuf → Result E String)
    → String
    → String
    → Result E String
read_text_file canonicalize refused read cwd path = elim (confined canonicalize cwd path) [
  | ok out ↦ read out
  | err e ↦ err (refused e)
]
