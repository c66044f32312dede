-- ===== src/Grok/Teardown/Reaped.antt =====
-- Where a tracked child is, step by step: crates/adapter-grok/src/teardown.rs.
use gamchi.Prelude.{
  ℕ, ◌+◌, All, ◌&&◌, leb, some, some-inj, ◌≡◌, ◌≢◌, sym, ap, ◌∙◌, Bool, true, false, ◌||◌, List, [],
  ◌∷◌, any, nat_eq, arith, inl, inr, Bool-cases,
}
use gamchi.Grok.Teardown.{
  Children, take_slot, register_child_pid, clear_slots, unregister_child_pid, Pause, exit_loop,
  parent_exit_teardown, track_child, drop_reap, tear_slots, teardown_registered_children,
  begin_acp_spawn, end_acp_spawn,
}

abbrev pub has : ℕ → List ℕ → Bool
has pid l = any (λ q. nat_eq q pid) l

-- The child is in the table, or its process group was torn down.
abbrev pub is_held : ℕ → Children → Bool
is_held pid s = has pid s.slots || has pid s.torn

-- What the threads of the process do to the table, in any order.
pub data Step (s : Children) : Children → Type 0 where
  tracks : (pid : ℕ) → Step s (track_child pid s).1
  drops : (pid : ℕ) → Step s (drop_reap pid s)
  tears : Step s (teardown_registered_children s)
  begins : Step s (begin_acp_spawn s)
  ends : Step s (end_acp_spawn s)
  stops : Step s (record s { shutting_down = true })

pub data Reach (s : Children) : Children → Type 0 where
  here : Reach s s
  next : {t u : Children} → Reach s t → Step t u → Reach s u

take_slot-has :
    (pid q : ℕ) (l : List ℕ) → pid ≢ 0 → has pid l ≡ true → has pid (take_slot q l).1 ≡ true
unfolding take_slot
take_slot-has pid q [] n h = h
take_slot-has pid q (x ∷ l) n h = ground (arith, take_slot-has pid q l n, n)

take_slot-taken :
    (pid : ℕ) (l : List ℕ) → (take_slot pid l).0 ≡ true → has pid (take_slot pid l).1 ≡ true
unfolding take_slot
take_slot-taken pid [] h = cc
take_slot-taken pid (x ∷ l) h = ground (arith, take_slot-taken pid l)

clear_slots-has :
    (pid q : ℕ) (l : List ℕ) → q ≢ pid → has pid l ≡ true → has pid (clear_slots q l) ≡ true
unfolding clear_slots
clear_slots-has pid q [] n h = h
clear_slots-has pid q (x ∷ l) n h = ground (arith, clear_slots-has pid q l n, n)

tear_slots-has :
    (pid : ℕ) (l torn : List ℕ)
    → pid ≢ 0
    → (has pid l || has pid torn) ≡ true
    → has pid (tear_slots l torn) ≡ true
unfolding tear_slots
tear_slots-has pid [] torn n h = h
tear_slots-has pid (x ∷ l) torn n h = tear_slots-has pid l _ n (ground (arith, n))

not_zero : (n : ℕ) → n ≢ 0 → nat_eq n 0 ≡ false
not_zero n h = ground (arith, h)

track_child-is_held :
    (pid q : ℕ) (s : Children)
    → pid ≢ 0
    → is_held pid s ≡ true
    → is_held pid (track_child q s).1 ≡ true
unfolding track_child register_child_pid
track_child-is_held pid q s n h = ground (arith, take_slot-has pid q s.slots n)

track_child_self : (pid : ℕ) (s : Children) → pid ≢ 0 → is_held pid (track_child pid s).1 ≡ true
unfolding track_child register_child_pid
track_child_self pid s n = ground (arith, take_slot-taken pid s.slots, n)

drop_reap-is_held :
    (pid q : ℕ) (s : Children) → pid ≢ 0 → is_held pid s ≡ true → is_held pid (drop_reap q s) ≡ true
unfolding drop_reap unregister_child_pid
drop_reap-is_held pid q s n h = ground (arith, clear_slots-has pid q s.slots)

teardown-has :
    (pid : ℕ) (s : Children)
    → pid ≢ 0
    → is_held pid s ≡ true
    → has pid (teardown_registered_children s).torn ≡ true
unfolding teardown_registered_children
teardown-has pid s n h = tear_slots-has pid s.slots s.torn n h

torn-is_held : (pid : ℕ) (s : Children) → has pid s.torn ≡ true → is_held pid s ≡ true
torn-is_held pid s h = ground arith

Step-is_held :
    {s u : Children} (pid : ℕ) → pid ≢ 0 → Step s u → is_held pid s ≡ true → is_held pid u ≡ true
Step-is_held {s} pid n (tracks q) h = track_child-is_held pid q s n h
Step-is_held {s} pid n (drops q) h = drop_reap-is_held pid q s n h
Step-is_held {s} pid n tears h =
    torn-is_held pid (teardown_registered_children s) (teardown-has pid s n h)
Step-is_held pid n begins h = h
Step-is_held pid n ends h = h
Step-is_held pid n stops h = h

Reach-is_held :
    {s u : Children} (pid : ℕ) → pid ≢ 0 → Reach s u → is_held pid s ≡ true → is_held pid u ≡ true
Reach-is_held pid n here h = h
Reach-is_held pid n (next r st) h = Step-is_held pid n st (Reach-is_held pid n r h)

-- A child that was ever handed to `track_child`, even with the table full, and whatever other
-- threads track, drop and tear down since, has had its process group torn down once the
-- registered children are torn down.
pub Reach-torn :
    {u : Children} (pid : ℕ) (s : Children)
    → pid ≢ 0
    → Reach (track_child pid s).1 u
    → has pid (teardown_registered_children u).torn ≡ true
Reach-torn {u} pid s n r = teardown-has pid u n (Reach-is_held pid n r (track_child_self pid s n))

-- What other threads do in a pause is steps of theirs.
abbrev pub IsSteps : Pause → Type 0
IsSteps p = (s : Children) → Reach s (p.others s)

exit_loop-torn :
    (pid deadline hard : ℕ) (pauses : List Pause) (s : Children) {u : Children}
    → pid ≢ 0
    → All IsSteps pauses
    → is_held pid s ≡ true
    → exit_loop deadline hard pauses s ≡ some u
    → has pid u.torn ≡ true
unfolding exit_loop
exit_loop-torn pid deadline hard [] s n steps h e = cc
exit_loop-torn pid deadline hard (p ∷ rest) s {u} n (q, steps) h e =
    let t = teardown_registered_children (p.others s) in
    let torn = teardown-has pid (p.others s) n (Reach-is_held pid n (q s) h) in
    let over = leb hard p.now || (leb deadline p.now && nat_eq t.spawns_open 0) in
    elim (Bool-cases over) [
      | inl ended ↦
          ap (λ (x : Children). has pid x.torn) (sym (some-inj (rw (exit_loop, ended) at e)))
          ∙ teardown-has pid t n (torn-is_held pid t torn)
      | inr more ↦
          exit_loop-torn pid deadline hard rest t n steps (torn-is_held pid t torn)
            (rw (exit_loop, more) at e)
    ]

-- Once the parent's exit has ended, every child that was tracked before it, and not only those
-- that are still in the table, has had its process group torn down, where the other threads do
-- no more in the pauses than track, drop and tear down children.
pub parent_exit-torn :
    (pid start : ℕ) (pauses : List Pause) (s : Children) {t u : Children}
    → pid ≢ 0
    → Reach (track_child pid s).1 t
    → All IsSteps pauses
    → parent_exit_teardown start pauses t ≡ some u
    → has pid u.torn ≡ true
unfolding parent_exit_teardown
parent_exit-torn pid start pauses s {t} n r steps e =
    exit_loop-torn pid (start + 500) (start + 2000) pauses (record t { shutting_down = true }) n
      steps (Reach-is_held pid n (next r stops) (track_child_self pid s n)) e
