-- ===== src/Ledger/Waiters.antt =====
-- The waiters of `Ledger` (`Inner.waiters`): a registry from turn ids to shared condition
-- variables. A pair is named by a number; `holders` lists the references that callers of `wait`
-- hold, each with the turn that its caller waits for, and `notified` the pairs that were notified,
-- the last first.
pub mod Tidy
pub mod LastOut
use gamchi.Prelude.{
  ℕ, suc, ◌+◌, String, ◌==◌, Bool, false, ◌&&◌, Option, none, some, List, [], ◌∷◌, leb, nat_eq,
  if◌then◌else◌,
}
use gamchi.Prelude.Assoc.{Assoc, lookup, insert, remove}

pub record Waiters : Type 0 where
  pub entries : Assoc ℕ
  pub holders : List (String × ℕ)
  pub next_pair : ℕ
  pub notified : List ℕ

abbrev pub no_waiters : Waiters
no_waiters = record { entries = []; holders = []; next_pair = 0; notified = [] }

unfoldable pub count_of : ℕ → List (String × ℕ) → ℕ
count_of p [] = 0
count_of p ((k, q) ∷ l) = let rest = count_of p l in if nat_eq p q then suc rest else rest

-- One reference is dropped.
unfoldable pub drop_one : String → ℕ → List (String × ℕ) → List (String × ℕ)
drop_one k p [] = []
drop_one k p ((j, q) ∷ l) = if j == k && nat_eq p q then l else (j, q) ∷ drop_one k p l

-- `waiter`: the registered pair, or a new one; the caller holds it.
unfoldable pub waiter : String → Waiters → ℕ × Waiters
waiter turn_id w = elim (lookup turn_id w.entries) [
  | some pair ↦ (pair, record w { holders = (turn_id, pair) ∷ w.holders })
  | none ↦ (
    w.next_pair,
    record w {
      entries = insert turn_id w.next_pair w.entries;
      holders = (turn_id, w.next_pair) ∷ w.holders;
      next_pair = suc w.next_pair;
    },
  )
]

unfoldable pub wake : String → Waiters → Waiters
wake turn_id w = elim (lookup turn_id w.entries) [
  | some pair ↦ record w { notified = pair ∷ w.notified }
  | none ↦ w
]

unfoldable pub wake_and_drop : String → Waiters → Waiters
wake_and_drop turn_id w = elim (lookup turn_id w.entries) [
  | some pair ↦ record w { entries = remove turn_id w.entries; notified = pair ∷ w.notified }
  | none ↦ w
]

unfoldable pub notify_all : Assoc ℕ → List ℕ → List ℕ
notify_all [] out = out
notify_all ((k, pair) ∷ m) out = notify_all m (pair ∷ out)

unfoldable pub wake_all : Waiters → Waiters
wake_all w = record w { notified = notify_all w.entries w.notified }

-- `Arc::strong_count`: the registry's own reference and those of the callers.
abbrev pub strong_count : ℕ → Waiters → ℕ
strong_count pair w = 1 + count_of pair w.holders

abbrev pub is_last : Option ℕ → ℕ → Waiters → Bool
is_last none pair w = false
is_last (some existing) pair w = nat_eq existing pair && leb (strong_count existing w) 2

-- `release_waiter`: the registry's lock is held from the count to the removal. The notification
-- before it changes nothing that is counted, and the caller still holds its reference afterwards.
unfoldable pub release_waiter : String → ℕ → Waiters → Waiters
release_waiter turn_id pair w =
    let told = record w { notified = pair ∷ w.notified } in
    if is_last (lookup turn_id w.entries) pair w
    then record told { entries = remove turn_id w.entries }
    else told

-- The caller of `release_waiter` returns and drops its reference, without the registry's lock.
unfoldable pub drop_waiter : String → ℕ → Waiters → Waiters
drop_waiter turn_id pair w = record w { holders = drop_one turn_id pair w.holders }
