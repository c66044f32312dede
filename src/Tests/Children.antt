-- ===== src/Tests/Children.antt =====
-- Children tracked and torn down.
use gamchi.Prelude.{ℕ, ◌≡◌, ◌≢◌, refl, arith, true, some, [], ◌∷◌, List, All}
use gamchi.Grok.Teardown.{
  Children, Pause, no_children, track_child, teardown_registered_children, parent_exit_teardown,
  exit_loop, register_child_pid, take_slot, tear_slots,
}
use gamchi.Grok.Teardown.Reaped.{Reach, IsSteps, has, Reach-torn, parent_exit-torn}

abbrev one : Children
one = (track_child 42 no_children).1

some_pid : ◌≢◌ {A = ℕ} 42 0
some_pid = ground arith

Reach-torn_example : has 42 (teardown_registered_children one).torn ≡ true
Reach-torn_example = Reach-torn 42 no_children some_pid Reach.here

-- One pause, past the first deadline.
abbrev pauses : List Pause
pauses = record { others = λ s. s; now = 600 } ∷ []

abbrev ended : Children
ended =
    teardown_registered_children
      (teardown_registered_children (record one { shutting_down = true }))

ends : parent_exit_teardown 0 pauses one ≡ some ended
unfolding parent_exit_teardown exit_loop teardown_registered_children track_child register_child_pid
    take_slot tear_slots no_children
ends = refl

pauses-IsSteps : All IsSteps pauses
pauses-IsSteps = (λ s. Reach.here, tt)

parent_exit-torn_example : has 42 ended.torn ≡ true
parent_exit-torn_example =
    parent_exit-torn 42 0 pauses no_children some_pid Reach.here pauses-IsSteps ends
