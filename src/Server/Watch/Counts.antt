-- ===== src/Server/Watch/Counts.antt =====
-- The notes on an item that `emit_item_notifications` of crates/gamchi/src/app_server.rs sends,
-- counted.
use gamchi.Prelude.{
  ℕ, ◌+◌, ◌≤◌, ◌≡◌, refl, sym, ap, ◌∙◌, String, ◌==◌, Bool, true, false, not, ◌&&◌, ◌||◌, Option,
  none, some, List, [], ◌∷◌, ◌++◌, arith, Bool-cases, inl, inr, eq_iff, if◌then◌else◌,
}
use gamchi.Wire.{Item, Turn}
use gamchi.Prelude.Json.{Value, get, get_in, text_in}
use gamchi.Server.Connection.{Conn, write_locked}
use gamchi.Server.Watch.{
  notify_item_started, notify_item_completed, Seen, is_in, item_note, is_done, emit_started,
  emit_completed, and_emit, Emit, emit_items, emit_item_notifications,
}

abbrev pub has_text : Option String → String → Bool
has_text none s = false
has_text (some t) s = t == s

-- A message of that method on the item of that id.
abbrev pub tells : (method id : String) → Value → Bool
tells method id m =
    has_text (text_in (get m "method")) method
    && has_text (text_in (get_in (get_in (get m "params") "item") "id")) id

-- How many messages of a list tell of the item.
abbrev pub count : (method id : String) → List Value → ℕ
count method id [] = 0
count method id (m ∷ ms) = (if tells method id m then 1 else 0) + count method id ms

count-push :
    (method id : String) (ms : List Value) (m : Value)
    → count method id (ms ++ m ∷ []) ≡ count method id ms + (if tells method id m then 1 else 0)
count-push method id [] m = omega arith
count-push method id (n ∷ ms) m = omega (arith, count-push method id ms m)

abbrev pub one_if : Bool → ℕ
one_if b = if b then 1 else 0

-- An item of which a method told is in the set of that method.
pub record Once (id : String) (seen : Seen) (io : Conn) : Type 0 where
  pub starts : count notify_item_started id io.sent ≤ one_if (is_in id seen.started)
  pub completes : count notify_item_completed id io.sent ≤ one_if (is_in id seen.completed)

-- A message that tells of no item.
abbrev pub IsOther : Value → Type 0
IsOther m =
    (id : String)
    → (tells notify_item_started id m ≡ false) × (tells notify_item_completed id m ≡ false)

write_locked-count :
    (method id : String) (m : Value) (io : Conn)
    → count method id (write_locked m io).1.sent
      ≤ count method id io.sent + one_if (tells method id m)
unfolding write_locked
write_locked-count method id m io = elim (Bool-cases (io.refuses io.writes)) [
  | inl refused ↦ rw refused (omega arith)
  | inr written ↦ rw written (omega (arith, count-push method id io.sent m))
]

pub write_locked-other :
    (id : String) (m : Value) (seen : Seen) (io : Conn)
    → IsOther m
    → Once id seen io
    → Once id seen (write_locked m io).1
write_locked-other id m seen io o h =
    let (no_start, no_end) = o id in
    let starts = rw no_start at (write_locked-count notify_item_started id m io) in
    let completes = rw no_end at (write_locked-count notify_item_completed id m io) in
    let old_starts = h.starts in
    let old_completes = h.completes in record { starts = omega arith; completes = omega arith }

-- An id that is the same is in the same sets.
same_in :
    (id other : String) (ids : List String) → (id == other) ≡ true → is_in id ids ≡ is_in other ids
same_in id other ids e = ap (λ k. is_in k ids) ((eq_iff id other).0 e)

told_once :
    (n m : ℕ) (same inside : Bool)
    → m ≤ n + one_if same
    → n ≤ one_if inside
    → (same ≡ true → inside ≡ false)
    → m ≤ one_if (same || inside)
told_once n m true inside new old fresh =
    let out : one_if inside ≡ 0 = ap one_if (fresh refl) in omega arith
told_once n m false inside new old fresh = omega arith

-- A set that the item is not in does not have its id.
fresh_in :
    (item : Item) (id : String) (ids : List String)
    → is_in item.id ids ≡ false
    → (item.id == id) ≡ true
    → is_in id ids ≡ false
fresh_in item id ids fresh same = sym (same_in item.id id ids same) ∙ fresh

module _ (id thread_id : String) (turn : Turn) (now : ℕ) where
  emit_started-Once :
      (item : Item) (seen : Seen) (io : Conn)
      → Once id seen io
      → Once id
          (emit_started thread_id turn now item seen io).1
          (emit_started thread_id turn now item seen io).2
  unfolding emit_started
  emit_started-Once item seen io h = elim (Bool-cases (is_in item.id seen.started)) [
    | inl told ↦ rw told h
    | inr fresh ↦
        let note = item_note notify_item_started "startedAtMs" thread_id turn now item in
        let starts = write_locked-count notify_item_started id note io in
        let completes = write_locked-count notify_item_completed id note io in
        let old_completes = h.completes in
        rw fresh (record {
          starts =
              told_once _ _ (item.id == id) (is_in id seen.started) starts h.starts
                (fresh_in item id seen.started fresh);
          completes = omega arith;
        })
  ]

  emit_completed-Once :
      (item : Item) (seen : Seen) (io : Conn)
      → Once id seen io
      → Once id
          (emit_completed thread_id turn now item seen io).1
          (emit_completed thread_id turn now item seen io).2
  unfolding emit_completed
  emit_completed-Once item seen io h =
      elim (Bool-cases (not (is_done item) || is_in item.id seen.completed)) [
        | inl told ↦ rw told h
        | inr fresh ↦
            let note = item_note notify_item_completed "completedAtMs" thread_id turn now item in
            let starts = write_locked-count notify_item_started id note io in
            let completes = write_locked-count notify_item_completed id note io in
            let old_starts = h.starts in
            let absent : is_in item.id seen.completed ≡ false = ground arith in
            rw fresh (record {
              starts = omega arith;
              completes =
                  told_once _ _ (item.id == id) (is_in id seen.completed) completes h.completes
                    (fresh_in item id seen.completed absent);
            })
      ]

  and_emit-Once :
      (e : Emit) (f : Seen → Conn → Emit)
      → Once id e.1 e.2
      → ((seen : Seen) (io : Conn) → Once id seen io → Once id (f seen io).1 (f seen io).2)
      → Once id (and_emit e f).1 (and_emit e f).2
  and_emit-Once (true, seen, io) f h k = k seen io h
  and_emit-Once (false, seen, io) f h k = h

  emit_items-Once :
      (items : List Item) (seen : Seen) (io : Conn)
      → Once id seen io
      → Once id
          (emit_items thread_id turn now items seen io).1
          (emit_items thread_id turn now items seen io).2
  unfolding emit_items
  emit_items-Once [] seen io h = h
  emit_items-Once (item ∷ items) seen io h =
      and_emit-Once
        (and_emit (emit_started thread_id turn now item seen io)
          (emit_completed thread_id turn now item))
        (emit_items thread_id turn now items)
        (and_emit-Once (emit_started thread_id turn now item seen io)
          (emit_completed thread_id turn now item) (emit_started-Once item seen io h)
          (emit_completed-Once item))
        (emit_items-Once items)

  pub emit-Once :
      (seen : Seen) (io : Conn)
      → Once id seen io
      → Once id
          (emit_item_notifications thread_id turn now seen io).1
          (emit_item_notifications thread_id turn now seen io).2
  unfolding emit_item_notifications
  emit-Once seen io h = emit_items-Once turn.items seen io h
