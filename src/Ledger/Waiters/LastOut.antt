-- ===== src/Ledger/Waiters/LastOut.antt =====
-- The registry of waiters as a transition system: crates/core/src/ledger.rs, `Inner.waiters`.
use mathlib.Core.List.{Memᴰ}
use gamchi.Prelude.{ℕ, String, ◌≡◌, some}
use gamchi.Prelude.Assoc.{lookup}
use gamchi.Ledger.Waiters.{
  Waiters, no_waiters, count_of, waiter, wake, wake_and_drop, wake_all, release_waiter, drop_waiter,
}
use gamchi.Ledger.Waiters.Tidy.{
  IsTidy, enter-IsTidy, wake-IsTidy, wake_and_drop-IsTidy, told-IsTidy, release_waiter-IsTidy,
  drop_waiter-IsTidy, release_waiter-last,
}

-- What one caller and others do to the registry. A caller releases what it holds, and drops it
-- later: others may act between the two.
pub data Step (w : Waiters) : Waiters → Type 0 where
  enter : (turn_id : String) → Step w (waiter turn_id w).1
  wakes : (turn_id : String) → Step w (wake turn_id w)
  drops : (turn_id : String) → Step w (wake_and_drop turn_id w)
  all : Step w (wake_all w)
  leave :
      (turn_id : String) (pair : ℕ)
      → Memᴰ (turn_id, pair) w.holders
      → Step w (release_waiter turn_id pair w)
  gone :
      (turn_id : String) (pair : ℕ)
      → Memᴰ (turn_id, pair) w.holders
      → Step w (drop_waiter turn_id pair w)

pub data Reach : Waiters → Type 0 where
  start : Reach no_waiters
  next : {w v : Waiters} → Reach w → Step w v → Reach v

Step-IsTidy : {w v : Waiters} → Step w v → IsTidy w → IsTidy v
unfolding wake_all
Step-IsTidy {w} (enter t) h = enter-IsTidy t w h
Step-IsTidy {w} (wakes t) h = wake-IsTidy t w h
Step-IsTidy {w} (drops t) h = wake_and_drop-IsTidy t w h
Step-IsTidy {w} Step.all h = told-IsTidy w _ h
Step-IsTidy {w} (leave t p m) h = release_waiter-IsTidy t p w h
Step-IsTidy {w} (gone t p m) h = drop_waiter-IsTidy t p w h

no_waiters-IsTidy : IsTidy no_waiters
unfolding lookup
no_waiters-IsTidy = record { bounded = λ k p e. cc; distinct = λ j k p e f. cc; owned = tt }

Reach-IsTidy : {w : Waiters} → Reach w → IsTidy w
Reach-IsTidy start = no_waiters-IsTidy
Reach-IsTidy (next r st) = Step-IsTidy st (Reach-IsTidy r)

-- Whatever calls of `wait` enter and leave, and whatever wakes and drops happen in between, in any
-- order: a caller that releases a pair of which no other caller holds a reference leaves the pair
-- registered for no turn.
pub Reach-release :
    {w : Waiters} (turn_id other_id : String) (pair : ℕ)
    → Reach w
    → Memᴰ (turn_id, pair) w.holders
    → count_of pair w.holders ≡ 1
    → ¬ (lookup other_id (release_waiter turn_id pair w).entries ≡ some pair)
Reach-release {w} t k p r m alone = release_waiter-last t k p w (Reach-IsTidy r) m alone

-- In such a registry a pair is registered for one turn at most, so that a wake reaches the waiters
-- of its turn only.
Reach-distinct :
    {w : Waiters} (turn_id other_id : String) (pair : ℕ)
    → Reach w
    → lookup turn_id w.entries ≡ some pair
    → lookup other_id w.entries ≡ some pair
    → turn_id ≡ other_id
Reach-distinct {w} t u p r = (Reach-IsTidy r).distinct t u p
