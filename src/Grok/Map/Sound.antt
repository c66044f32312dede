-- ===== src/Grok/Map/Sound.antt =====
-- The invariant of the mapper of crates/adapter-grok/src/map.rs: an index in `tools` is the index
-- of the item with that id, and every item's type is a public one.
use gamchi.Prelude.{
  ℕ, zero, suc, ◌≡◌, refl, sym, ◌∙◌, subst, Bool, true, false, String, ◌==◌, eq_iff, inl, inr, ok,
  Option, none, some, List, [], ◌∷◌, ◌++◌, length, get_elem?, set, All, if◌then◌else◌, Bool-cases,
  Option-cases, some-inj, get_elem?-set, set-cases, set-keeps, get_elem?-append, get_elem?-push,
  push-cases,
}
use gamchi.Prelude.Assoc.{lookup, insert, lookup-insert}
use gamchi.Wire.{Item, item_command_execution, item_web_search, known_item_type}
use gamchi.Grok.Tool.{
  map_kind, edit, execute, other, fetch, search, delete, move, is_shell, is_web, ToolKind, RawInput,
}
use gamchi.Grok.Map.{Mapper, Mapping, new, with_items, update_at, answer, store_at, store_tool}

abbrev pub IsPublic : Item → Type 0
IsPublic i = known_item_type i.item_type ≡ (true, false)

abbrev pub Holds : List Item → String → ℕ → Type 0
Holds items id idx = (i : Item) × (get_elem? items idx ≡ some i) × (i.id ≡ id)

abbrev pub AllPublic : List Item → Type 0
AllPublic items = (idx : ℕ) (i : Item) → get_elem? items idx ≡ some i → IsPublic i

pub record IsSound (m : Mapper) : Type 0 where
  pub indexed : (id : String) (idx : ℕ) → lookup id m.tools ≡ some idx → Holds m.items id idx
  pub public : AllPublic m.items

-- The method neither panics nor refuses, and leaves a sound mapper; its items are public.
abbrev pub Runs : Mapping → Type 0
Runs r =
    (items : List Item) × (m : Mapper) × (r ≡ some (ok items, m)) × IsSound m × All IsPublic items

-- The items of a new mapper.
first-AllPublic : (text : String) → AllPublic (new text).items
unfolding new known_item_type
first-AllPublic text zero i h = cc
first-AllPublic text (suc idx) i h = cc

pub new-IsSound : (text : String) → IsSound (new text)
unfolding new lookup
new-IsSound text = record { indexed = λ id idx h. cc; public = first-AllPublic text }

-- A write keeps each item's id, where it keeps the one at its index.
set-Holds :
    (items : List Item) (idx : ℕ) (v : Item) {i : Item}
    → get_elem? items idx ≡ some i
    → v.id ≡ i.id
    → (id : String) (j : ℕ) → Holds items id j
    → Holds (set items idx v) id j
set-Holds items idx v {i} stands same id j (x, at, e) = elim (set-keeps items idx j v at) [
  | inl kept ↦ (x, kept, e)
  | inr here ↦
      let both = sym stands ∙ subst (λ k. get_elem? items k ≡ some x) (sym here) at in
      (
        v,
        subst (λ k. get_elem? (set items idx v) k ≡ some v) here (get_elem?-set items idx v stands),
        subst (λ y. v.id ≡ y.id) (some-inj both) same ∙ e,
      )
]

-- An item changed in place, with its id kept.
pub set-IsSound :
    (m : Mapper) (idx : ℕ) (v : Item) {i : Item}
    → get_elem? m.items idx ≡ some i
    → v.id ≡ i.id
    → IsPublic v
    → IsSound m
    → IsSound (with_items (set m.items idx v) m)
set-IsSound m idx v stands same fits sound = record {
  indexed = λ id j h. set-Holds m.items idx v stands same id j (sound.indexed id j h);
  public = λ j y h. elim (set-cases m.items idx j v h) [
    | inl written ↦ rw written fits
    | inr before ↦ sound.public j y before
  ];
}

push-Holds :
    (items : List Item) (v : Item) (id : String) (j : ℕ)
    → Holds items id j
    → Holds (items ++ v ∷ []) id j
push-Holds items v id j (i, stands, e) = (i, get_elem?-append items (v ∷ []) j stands, e)

push-AllPublic :
    (items : List Item) (v : Item) → IsPublic v → AllPublic items → AllPublic (items ++ v ∷ [])
push-AllPublic items v fits public j y h = elim (push-cases items v j h) [
  | inl written ↦ rw written fits
  | inr before ↦ public j y before
]

pub push-IsSound :
    (m : Mapper) (v : Item) → IsPublic v → IsSound m → IsSound (with_items (m.items ++ v ∷ []) m)
push-IsSound m v fits sound = record {
  indexed = λ id j h. push-Holds m.items v id j (sound.indexed id j h);
  public = push-AllPublic m.items v fits sound.public;
}

pub answer-Runs :
    (idx : ℕ) (m : Mapper) {i : Item}
    → get_elem? m.items idx ≡ some i
    → IsSound m
    → Runs (answer idx m)
answer-Runs idx m {i} stands sound =
    (i ∷ [], m, rw (answer, stands), sound, (sound.public idx i stands, tt))

-- A new item, with its index kept under its id.
register-IsSound :
    (id : String) (v : Item) (m : Mapper)
    → v.id ≡ id
    → IsPublic v
    → IsSound m
    → IsSound (record { items = m.items ++ v ∷ []; tools = insert id (length m.items) m.tools })
register-IsSound id v m e fits sound = record {
  indexed = λ key j h. elim (Bool-cases (id == key)) [
    | inl same ↦
        let last = some-inj (sym (lookup-insert id key (length m.items) m.tools ∙ rw same) ∙ h) in
        subst (Holds (m.items ++ v ∷ []) key) last
          (v, get_elem?-push m.items v, e ∙ (eq_iff id key).0 same)
    | inr apart ↦
        push-Holds m.items v key j
          (sound.indexed key j (sym (lookup-insert id key (length m.items) m.tools ∙ rw apart) ∙ h))
  ];
  public = push-AllPublic m.items v fits sound.public;
}

pub store_tool-Runs :
    (id : String) (v : Item) (m : Mapper)
    → v.id ≡ id
    → IsPublic v
    → IsSound m
    → Runs (store_tool id v m)
unfolding store_tool
store_tool-Runs id v m e fits sound = elim (Option-cases (lookup id m.tools)) [
  | inr (idx, known) ↦
      let (i, stands, held) = sound.indexed id idx known in
      rw (store_tool, known, store_at, update_at, stands)
        (answer-Runs idx (with_items (set m.items idx v) m) (get_elem?-set m.items idx v stands)
          (set-IsSound m idx v stands (e ∙ sym held) fits sound))
  | inl fresh ↦
      rw (store_tool, fresh)
        (answer-Runs (length m.items)
          (record { items = m.items ++ v ∷ []; tools = insert id (length m.items) m.tools })
          (get_elem?-push m.items v) (register-IsSound id v m e fits sound))
]

when-some : (b : Bool) (t : String) {u : String} → (if b then some t else none) ≡ some u → t ≡ u
when-some true t h = some-inj h
when-some false t h = cc

-- The adapter only makes items of public types.
pub map_kind-IsPublic :
    (kind : ToolKind) (title : String) (raw : Option RawInput) {t : String}
    → map_kind kind title raw ≡ some t
    → known_item_type t ≡ (true, false)
unfolding map_kind known_item_type
map_kind-IsPublic edit title raw h = rw (sym (some-inj h)) refl
map_kind-IsPublic execute title raw h = rw (sym (some-inj h)) refl
map_kind-IsPublic other title raw h =
    rw (sym (when-some (is_shell title raw) item_command_execution h)) refl
map_kind-IsPublic fetch title raw h = rw (sym (when-some (is_web title raw) item_web_search h)) refl
map_kind-IsPublic search title raw h =
    rw (sym (when-some (is_web title raw) item_web_search h)) refl
map_kind-IsPublic delete title raw h = cc
map_kind-IsPublic move title raw h = cc
map_kind-IsPublic ToolKind.unnamed title raw h = cc
