-- ===== src/Grok/Map/Runs.antt =====
-- A turn's mapper from its first update to its last: crates/adapter-grok/src/map.rs.
use gamchi.Prelude.{
  ℕ, ◌≡◌, ◌⊎◌, false, refl, sym, ap, subst, ◌∙◌, true, false, String, ◌==◌, eq_iff, eq_refl, inl,
  inr, ok, Option, none, some, List, [], ◌∷◌, ◌++◌, Result, length, get_elem?, set, position,
  Option-cases, get_elem?-set, get_elem?-push, any, any-position, position-get_elem?,
  find-get_elem?, some-inj,
}
use gamchi.Prelude.Assoc.{lookup}
use gamchi.Wire.{Item, known_item_type}
use gamchi.Grok.Tool.{
  ToolCall, ToolCallUpdate, SessionUpdate, agent_thought_chunk, skipped, agent_message_chunk, plan,
  tool_call, tool_call_update, map_kind, sanitize_id, item_status, item_status_completed,
}
use gamchi.Grok.Map.{
  Mapper, Mapping, ExcludedFatal, new, with_items, update_at, upsert, upsert_agent, upsert_plan,
  report, answer, store_tool, unless_fatal, reject_fatal, amend, retype, change_type, update_tool,
  first_update, kind_or_other, or_empty, apply_tool_call, apply_tool_update, apply,
  finish_agent_message, agent_item_id, plan_item_id,
}
use gamchi.Grok.Map.Sound.{
  IsPublic, IsSound, Runs, new-IsSound, set-IsSound, push-IsSound, answer-Runs, store_tool-Runs,
  map_kind-IsPublic,
}

unless_fatal-Runs :
    (t : String) (m : Mapper) (rest : Mapping)
    → known_item_type t ≡ (true, false)
    → Runs rest
    → Runs (unless_fatal t m rest)
unfolding reject_fatal
unless_fatal-Runs t m rest e runs = rw (unless_fatal, reject_fatal, e) runs

skip-Runs : (m : Mapper) → IsSound m → Runs (some (ok [], m))
skip-Runs m sound = ([], m, refl, sound, tt)

report-Runs :
    (id : String) (m : Mapper) (items : List Item) (idx : ℕ) {v : Item}
    → get_elem? items idx ≡ some v
    → v.id ≡ id
    → IsSound (with_items items m)
    → Runs (report id m (some items))
report-Runs id m items idx stands e sound =
    let (y, j, found, at) = find-get_elem? (λ i. i.id == id) items idx stands (rw e (eq_refl id)) in
    (y ∷ [], with_items items m, rw (report, found), sound, (sound.public j y at, tt))

-- An upsert whose change keeps the id and the type.
upsert-Runs :
    (id : String) (f : Item → Item) (fresh : Item) (m : Mapper)
    → ((i : Item) → ((f i).id ≡ i.id) × ((f i).item_type ≡ i.item_type))
    → fresh.id ≡ id
    → IsPublic fresh
    → IsSound m
    → Runs (report id m (upsert id f fresh m.items))
unfolding upsert
upsert-Runs id f fresh m keeps e fits sound =
    elim (Option-cases (position (λ i. i.id == id) m.items)) [
      | inr (idx, here) ↦
          let (x, stands, same) = position-get_elem? (λ i. i.id == id) m.items here in
          rw (upsert, here, update_at, stands)
            (report-Runs id m (set m.items idx (f x)) idx (get_elem?-set m.items idx (f x) stands)
              ((keeps x).0 ∙ (eq_iff x.id id).0 same)
              (set-IsSound m idx (f x) stands ((keeps x).0)
                (ap known_item_type ((keeps x).1) ∙ sound.public idx x stands) sound))
      | inl missing ↦
          rw (upsert, missing)
            (report-Runs id m (m.items ++ fresh ∷ []) (length m.items)
              (get_elem?-push m.items fresh) e (push-IsSound m fresh fits sound))
    ]

change_type-Runs :
    (m : Mapper) (idx : ℕ) (i : Item) (t : Option String)
    → get_elem? m.items idx ≡ some i
    → ((s : String) → t ≡ some s → known_item_type s ≡ (true, false))
    → IsSound m
    → Runs (change_type m idx i t)
change_type-Runs m idx i none stands fits sound = answer-Runs idx m stands sound
change_type-Runs m idx i (some t) stands fits sound =
    let v = record i { item_type = t } in
    unless_fatal-Runs t m (answer idx (with_items (set m.items idx v) m)) (fits t refl) (
      answer-Runs idx (with_items (set m.items idx v) m) (get_elem?-set m.items idx v stands)
        (set-IsSound m idx v stands refl (fits t refl) sound))

retype-IsPublic :
    (u : ToolCallUpdate) (i : Item) (s : String)
    → retype u i ≡ some s
    → known_item_type s ≡ (true, false)
retype-IsPublic u i s h = elim (Option-cases u.kind) [
  | inl missing ↦ cc
  | inr (kind, given) ↦ map_kind-IsPublic kind i.text none (rw given at h)
]

update_tool-Runs :
    (u : ToolCallUpdate) (idx : ℕ) (m : Mapper) {i : Item}
    → get_elem? m.items idx ≡ some i
    → IsSound m
    → Runs (update_tool u idx m)
unfolding update_tool
update_tool-Runs u idx m {i} stands sound =
    let amended = with_items (set m.items idx (amend u i)) m in
    rw (update_tool, stands)
      (change_type-Runs amended idx (amend u i) (retype u (amend u i))
        (get_elem?-set m.items idx (amend u i) stands) (retype-IsPublic u (amend u i))
        (set-IsSound m idx (amend u i) stands refl (sound.public idx i stands) sound))

-- A tool call stored, where its kind maps to a type.
stored-Runs :
    (id : String) (v : Item) (m : Mapper)
    → v.id ≡ id
    → IsPublic v
    → IsSound m
    → Runs (unless_fatal v.item_type m (store_tool id v m))
stored-Runs id v m e fits sound =
    unless_fatal-Runs v.item_type m (store_tool id v m) fits (store_tool-Runs id v m e fits sound)

apply_tool_call-Runs : (c : ToolCall) (m : Mapper) → IsSound m → Runs (apply_tool_call c m)
unfolding apply_tool_call
apply_tool_call-Runs c m sound = elim (Option-cases (map_kind c.kind c.title c.raw_input)) [
  | inl skip ↦ rw (apply_tool_call, skip) (skip-Runs m sound)
  | inr (t, mapped) ↦
      rw (apply_tool_call, mapped)
        (stored-Runs (sanitize_id c.tool_call_id)
          (record {
            id = sanitize_id c.tool_call_id;
            item_type = t;
            text = c.title;
            status = item_status (some c.status);
          })
          m refl (map_kind-IsPublic c.kind c.title c.raw_input mapped) sound)
]

first_update-Runs : (u : ToolCallUpdate) (m : Mapper) → IsSound m → Runs (first_update u m)
unfolding first_update
first_update-Runs u m sound =
    elim (Option-cases (map_kind (kind_or_other u.kind) (or_empty u.title) none)) [
      | inl skip ↦ rw (first_update, skip) (skip-Runs m sound)
      | inr (t, mapped) ↦
          rw (first_update, mapped)
            (stored-Runs (sanitize_id u.tool_call_id)
              (record {
                id = sanitize_id u.tool_call_id;
                item_type = t;
                text = or_empty u.title;
                status = item_status u.status;
              })
              m refl (map_kind-IsPublic (kind_or_other u.kind) (or_empty u.title) none mapped)
              sound)
    ]

apply_tool_update-Runs :
    (u : ToolCallUpdate) (m : Mapper) → IsSound m → Runs (apply_tool_update u m)
unfolding apply_tool_update
apply_tool_update-Runs u m sound =
    elim (Option-cases (lookup (sanitize_id u.tool_call_id) m.tools)) [
      | inr (idx, known) ↦
          let (i, stands, e) = sound.indexed (sanitize_id u.tool_call_id) idx known in
          rw (apply_tool_update, known) (update_tool-Runs u idx m stands sound)
      | inl fresh ↦ rw (apply_tool_update, fresh) (first_update-Runs u m sound)
    ]

apply-Runs : (u : SessionUpdate) (m : Mapper) → IsSound m → Runs (apply u m)
unfolding apply upsert_agent upsert_plan known_item_type
apply-Runs agent_thought_chunk m sound = skip-Runs m sound
apply-Runs skipped m sound = skip-Runs m sound
apply-Runs (agent_message_chunk text) m sound =
    upsert-Runs agent_item_id _ _ m (λ i. (refl, refl)) refl refl sound
apply-Runs (plan entries) m sound =
    upsert-Runs plan_item_id _ _ m (λ i. (refl, refl)) refl refl sound
apply-Runs (tool_call c) m sound = apply_tool_call-Runs c m sound
apply-Runs (tool_call_update u) m sound = apply_tool_update-Runs u m sound

-- A turn's mapper, as the adapter uses it: made for the user's text, then updates, and at the end
-- of the prompt the agent message finished. A step is a call that came back.
pub data Reach : Mapper → Type 0 where
  start : (text : String) → Reach (new text)
  applied :
      {m n : Mapper} {r : Result ExcludedFatal (List Item)} (u : SessionUpdate)
      → Reach m
      → apply u m ≡ some (r, n)
      → Reach n
  finished :
      {m n : Mapper} {o : Option Item} → Reach m → finish_agent_message m ≡ some (o, n) → Reach n

-- There is no agent message: nothing is answered, and the mapper stays.
abbrev pub NothingToFinish : Mapper → Option (Option Item × Mapper) → Type 0
NothingToFinish m r =
    (any (λ i. i.id == agent_item_id) m.items ≡ false) × (r ≡ some (none, m)) × IsSound m

-- The agent message is stored as completed, with no other change, and it is the answer.
abbrev pub FinishedAt : Mapper → ℕ → Item → Option (Option Item × Mapper) → Type 0
FinishedAt m idx x r =
    let v = record x { status = item_status_completed } in
    (get_elem? m.items idx ≡ some x)
    × (x.id ≡ agent_item_id)
    × (r ≡ some (some v, with_items (set m.items idx v) m))
    × IsSound (with_items (set m.items idx v) m)

-- What `finish_agent_message` does: one of the two.
abbrev pub Finishes : Mapper → Option (Option Item × Mapper) → Type 0
Finishes m r = NothingToFinish m r ⊎ ((idx : ℕ) × (x : Item) × FinishedAt m idx x r)

finish_agent_message-Finishes : (m : Mapper) → IsSound m → Finishes m (finish_agent_message m)
unfolding finish_agent_message
finish_agent_message-Finishes m sound =
    elim (Option-cases (position (λ i. i.id == agent_item_id) m.items)) [
      | inl missing ↦ inl (
        any-position (λ i. i.id == agent_item_id) m.items missing,
        rw (finish_agent_message, missing),
        sound,
      )
      | inr (idx, here) ↦
          let (x, stands, same) = position-get_elem? (λ i. i.id == agent_item_id) m.items here in
          let v = record x { status = item_status_completed } in
          let written = get_elem?-set m.items idx v stands in
          inr (
            idx,
            x,
            (
              stands,
              (eq_iff x.id agent_item_id).0 same,
              rw (finish_agent_message, here, update_at, stands, written),
              set-IsSound m idx v stands refl (sound.public idx x stands) sound,
            ),
          )
    ]

Finishes-IsSound :
    {m n : Mapper} {r : Option (Option Item × Mapper)} {o : Option Item}
    → Finishes m r
    → r ≡ some (o, n)
    → IsSound n
Finishes-IsSound (inl (gone, e, sound)) h =
    subst IsSound (ap (λ p. p.1) (some-inj (sym e ∙ h))) sound
Finishes-IsSound (inr (idx, x, (stands, same, e, sound))) h =
    subst IsSound (ap (λ p. p.1) (some-inj (sym e ∙ h))) sound

Runs-IsSound :
    {c : Mapping} {r : Result ExcludedFatal (List Item)} {n : Mapper}
    → Runs c
    → c ≡ some (r, n)
    → IsSound n
Runs-IsSound (items, m, e, sound, fits) h =
    subst IsSound (ap (λ p. p.1) (some-inj (sym e ∙ h))) sound

Reach-IsSound : {m : Mapper} → Reach m → IsSound m
Reach-IsSound (start text) = new-IsSound text
Reach-IsSound (applied {m} u r h) = Runs-IsSound (apply-Runs u m (Reach-IsSound r)) h
Reach-IsSound (finished {m} {n} {o} r h) =
    Finishes-IsSound (finish_agent_message-Finishes m (Reach-IsSound r)) h

-- On a mapper that a turn can have, no update makes `apply` panic (no index is out of bounds, no
-- `unwrap` meets `None`) or refuse with `ExcludedFatal`, and the items that it answers with have
-- public types.
pub Reach-apply : {m : Mapper} → Reach m → (u : SessionUpdate) → Runs (apply u m)
Reach-apply {m} r u = apply-Runs u m (Reach-IsSound r)

-- Nor does `finish_agent_message` panic there: where no item has the id of the agent message, it
-- answers with none and changes nothing; else it stores an item of that id as completed, changes
-- nothing more, and answers with that item. The mapper stays sound.
pub Reach-finish : {m : Mapper} → Reach m → Finishes m (finish_agent_message m)
Reach-finish {m} r = finish_agent_message-Finishes m (Reach-IsSound r)
