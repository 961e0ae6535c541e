-- ===== src/Tests/Sync.antt =====
-- The sync pool: a pool of one cell, two threads that want it, and a client that meets an error.
use resource_pool.Prelude.{
  ℕ, ◌+◌, ◌<◌, ◌≤◌, ◌++◌, count, length, ◌≡◌, refl, inl, some, List, [], ◌∷◌, false, true,
}
use resource_pool.Prelude.Int.{ℤ, pos, ◌+ℤ◌, ◌-ℤ◌}
use resource_pool.Outcome.{ok, undefined}
use resource_pool.Error.{make_error_code, get_resource_timeout, failed}
use resource_pool.TimeTraits.{TimePoint, add, time_max}
use resource_pool.Storage
use resource_pool.Storage.{CellIterator, at, singular}
use resource_pool.Storage.WellFormed.{WellFormed}
use resource_pool.Storage.Construction.{with_capacity-WellFormed}
use resource_pool.Handle.{make_handle, waste_strategy, unusable, destroy}
use resource_pool.Sync.PoolImpl
use resource_pool.Sync.PoolImpl.{PoolImpl, GetResult, Wakeup, timeout, no_timeout}
use resource_pool.Sync.PoolImpl.Get.{GetOutcome, get-GetOutcome, get_returns}
use resource_pool.Sync.PoolImpl.Opened.{Opened, with_empty_cells}
use resource_pool.Sync.PoolImpl.Steps.{Reach, here, next, gets, run_get, all_late}
use resource_pool.Sync.PoolImpl.Waiting.{reachable-Attended}
use resource_pool.Sync.PoolImpl.Clients.{Clients, opens, gets, given}
use resource_pool.Sync.PoolImpl.Exclusive.{one_holder}
use resource_pool.Sync.Pool.{get_handle}
use resource_pool.Sync.Pool.Handles.{sync_returns, get_handle_error}

one : PoolImpl ℕ
one = PoolImpl.over (Storage.with_capacity 1 time_max time_max) 1

one_made : PoolImpl.with_capacity 1 time_max time_max ≡ ok one
unfolding one PoolImpl.with_capacity
one_made = refl

one-Opened : Opened one
one-Opened = with_empty_cells 1 time_max time_max one one_made

one-WellFormed : WellFormed one.storage
unfolding one
one-WellFormed = with_capacity-WellFormed 1 time_max time_max

-- A second client finds the pool empty and its wait runs out.
taken : PoolImpl ℕ
unfolding one run_get PoolImpl.get PoolImpl.attempt Storage.lease Storage.with_capacity add ◌+ℤ◌
    ◌-ℤ◌
taken = run_get (pos 1) one

-- Two threads ask for the cell: the second waits.
contended : Reach one (run_get (pos 2) (run_get (pos 1) one))
contended = next (next here (gets (pos 1))) (gets (pos 2))

contended_waits : (run_get (pos 2) (run_get (pos 1) one)).has_capacity.waiting ≡ 1
unfolding taken
contended_waits = refl

reachable-Attended_example :
    let q = run_get (pos 2) (run_get (pos 1) one) in
    WellFormed q.storage
    × (q.storage.nodes ≡ q.capacity)
    × (PoolImpl.size q ≤ q.capacity)
    × (0 < q.has_capacity.waiting
        → length q.storage.available + length q.storage.wasted
          ≤ q.has_capacity.notified + all_late contended)
    × (q.is_disabled ≡ true → q.has_capacity.waiting ≡ 0)
reachable-Attended_example = reachable-Attended one _ one-Opened contended

-- A third thread waits, too.
crowded : PoolImpl ℕ
unfolding taken
crowded = run_get (pos 3) (run_get (pos 2) taken)

run_out : List (Wakeup ℕ)
run_out = record { meanwhile = λ p. p; status = timeout; now = pos 3 } ∷ []

get_returns_example : (g : GetResult) × ((PoolImpl.get (pos 2) run_out taken).0 ≡ some g)
unfolding run_out
get_returns_example = get_returns (pos 2) run_out taken (inl refl)

taken-WellFormed : WellFormed taken.storage
unfolding taken
taken-WellFormed = (reachable-Attended one taken one-Opened (next here (gets (pos 1)))).0

get-GetOutcome_example :
    WellFormed (PoolImpl.get (pos 2) run_out taken).1.storage
    × ((g : GetResult)
        → (PoolImpl.get (pos 2) run_out taken).0 ≡ some g
        → GetOutcome (PoolImpl.get (pos 2) run_out taken).1 g)
unfolding run_out
get-GetOutcome_example = get-GetOutcome (pos 2) run_out taken taken-WellFormed ((λ q w. w), tt)

get_handle_error_example :
    (unusable (make_handle 0 waste_strategy singular) ≡ false)
    × ((later : ℤ) (r : PoolImpl ℕ)
        → destroy sync_returns later (make_handle 0 waste_strategy singular) r ≡ undefined)
unfolding run_out taken
get_handle_error_example =
    get_handle_error (record { impl = some 0 }) waste_strategy (pos 2) run_out taken
      (PoolImpl.get (pos 2) run_out taken).1 (make_error_code get_resource_timeout)
      (make_handle 0 waste_strategy singular) taken-WellFormed ((λ q w. w), tt) got
      (unfold failed make_error_code in refl)
  where
    got :
        get_handle (record { impl = some 0 }) waste_strategy (pos 2) run_out taken
        ≡ ok (
          some (make_error_code get_resource_timeout, make_handle 0 waste_strategy singular),
          (PoolImpl.get (pos 2) run_out taken).1,
        )
    got = unfold get_handle in refl

-- The first thread has the cell.
in_hand : List ℕ
in_hand = [] ++ given (PoolImpl.get (pos 1) [] one).0

held_by_first : Clients (PoolImpl.get (pos 1) [] one).1 in_hand
unfolding in_hand
held_by_first = gets (pos 1) (opens one one-Opened) refl

in_hand_one : in_hand ≡ 0 ∷ []
unfolding in_hand taken PoolImpl.get PoolImpl.attempt Storage.lease Storage.with_capacity one add
    ◌+ℤ◌ ◌-ℤ◌
in_hand_one = refl

one_holder_example :
    let p = (PoolImpl.get (pos 1) [] one).1 in
    ((c : ℕ)
      → (count c in_hand ≡ count c p.storage.used)
        × (count c in_hand + count c p.storage.available + count c p.storage.wasted ≤ 1))
    × (length in_hand ≡ PoolImpl.used p)
    × (length in_hand ≤ p.capacity)
    × ((c : ℕ) (now : TimePoint)
        → 0 < count c in_hand
        → (q : PoolImpl ℕ) × (r : PoolImpl ℕ) × (PoolImpl.recycle now (at c) p ≡ ok q)
          × (PoolImpl.waste (at c) p ≡ ok r))
one_holder_example = one_holder (PoolImpl.get (pos 1) [] one).1 in_hand held_by_first
