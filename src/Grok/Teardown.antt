-- ===== src/Grok/Teardown.antt =====
-- The table of child processes and its teardown: crates/adapter-grok/src/teardown.rs.
pub mod Reaped
use gamchi.Prelude.{
  ℕ, zero, suc, ◌+◌, ◌-◌, ◌%◌, ◌^◌, Bool, true, false, not, ◌&&◌, ◌||◌, Option, none, some, List,
  [], ◌∷◌, map, Result, ok, err, leb, nat_eq, if◌then◌else◌,
}

-- `slots` is `LIVE_PIDS`, 0 where a slot is free; `torn` lists the process groups that were sent
-- SIGTERM and SIGKILL, the last first. Each change of a slot is one atomic operation.
pub record Children : Type 0 where
  pub slots : List ℕ
  pub shutting_down : Bool
  pub spawns_open : ℕ
  pub torn : List ℕ

abbrev pub free : ℕ → List ℕ
free zero = []
free (suc n) = 0 ∷ free n

-- The statics as the process starts: `MAX_LIVE` is 64.
unfoldable pub no_children : Children
no_children = record { slots = free 64; shutting_down = false; spawns_open = 0; torn = [] }

-- `teardown_process_group`.
abbrev pub teardown_process_group : ℕ → Children → Children
teardown_process_group pid s = if nat_eq pid 0 then s else record s { torn = pid ∷ s.torn }

-- The first free slot takes the pid; whether there was one, and the slots.
unfoldable pub take_slot : ℕ → List ℕ → Bool × List ℕ
take_slot pid [] = (false, [])
take_slot pid (q ∷ rest) =
    let (taken, others) = take_slot pid rest in
    if nat_eq q 0 then (true, pid ∷ rest) else (taken, q ∷ others)

unfoldable pub register_child_pid : ℕ → Children → Bool × Children
register_child_pid pid s =
    let (taken, slots) = take_slot pid s.slots in
    if nat_eq pid 0 then (true, s) else (taken, record s { slots = slots })

unfoldable pub clear_slots : ℕ → List ℕ → List ℕ
clear_slots pid [] = []
clear_slots pid (q ∷ rest) =
    let others = clear_slots pid rest in if nat_eq q pid then 0 ∷ others else q ∷ others

unfoldable pub unregister_child_pid : ℕ → Children → Children
unregister_child_pid pid s =
    if nat_eq pid 0 then s else record s { slots = clear_slots pid s.slots }

-- `ChildReap`, by its pid; `false` is `LiveTableFull`.
unfoldable pub track_child : ℕ → Children → Bool × Children
track_child pid s =
    let (taken, t) = register_child_pid pid s in
    if nat_eq pid 0
    then (true, s)
    else if taken
    then (true, t)
    else (false, teardown_process_group pid t)

-- `Drop for ChildReap`.
unfoldable pub drop_reap : ℕ → Children → Children
drop_reap pid s = unregister_child_pid pid (teardown_process_group pid s)

unfoldable pub tear_slots : List ℕ → List ℕ → List ℕ
tear_slots [] torn = torn
tear_slots (q ∷ rest) torn = tear_slots rest (if nat_eq q 0 then torn else q ∷ torn)

unfoldable pub teardown_registered_children : Children → Children
teardown_registered_children s = record s {
  slots = map (λ q. 0) s.slots;
  torn = tear_slots s.slots s.torn;
}

-- `begin_acp_spawn`, and the drop of its guard, on a u32.
abbrev pub begin_acp_spawn : Children → Children
begin_acp_spawn s = record s { spawns_open = (s.spawns_open + 1) % 2 ^ 32 }

abbrev pub end_acp_spawn : Children → Children
end_acp_spawn s = record s { spawns_open = (s.spawns_open + (2 ^ 32 - 1)) % 2 ^ 32 }

-- One sleep of `parent_exit_teardown`: what other threads did, and the time that the loop reads.
pub record Pause : Type 0 where
  pub others : Children → Children
  pub now : ℕ

-- The loop; `none` is one that has not ended within the given rounds.
unfoldable pub exit_loop : (deadline hard : ℕ) → List Pause → Children → Option Children
exit_loop deadline hard [] s = none
exit_loop deadline hard (pause ∷ rest) s =
    let t = teardown_registered_children (pause.others s) in
    let later = exit_loop deadline hard rest t in
    if leb hard pause.now || (leb deadline pause.now && nat_eq t.spawns_open 0)
    then some (teardown_registered_children t)
    else later

-- The deadlines are half a second and two seconds after `start`, in milliseconds.
unfoldable pub parent_exit_teardown : (start : ℕ) → List Pause → Children → Option Children
parent_exit_teardown start pauses s =
    exit_loop (start + 500) (start + 2000) pauses (record s { shutting_down = true })
