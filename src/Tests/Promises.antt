-- ===== src/Tests/Promises.antt =====
-- A run of an async pool, step by step: the promise that it keeps.
use resource_pool.Prelude.{ℕ, ◌≡◌, refl, true, false, List, [], ◌∷◌, ◌<◌, count, arith}
use resource_pool.Prelude.Int.{pos, ◌+ℤ◌, ◌-ℤ◌}
use resource_pool.TimeTraits.{add}
use resource_pool.Outcome.{Outcome, ok}
use resource_pool.Error.{success}
use resource_pool.Storage
use resource_pool.Storage.{at}
use resource_pool.Async.Handlers.{Event, call, run}
use resource_pool.Async.Queue
use resource_pool.Async.PoolImpl
use resource_pool.Async.PoolImpl.{PoolImpl}
use resource_pool.Async.PoolImpl.Promise.{
  Action, asks, goes_on, gives_back, Answer, told, Allows, seen, unused, Trace, rests, takes,
}
use resource_pool.Async.PoolImpl.Refines.{Does, locked, unlocked, recycled, refines}
use resource_pool.Tests.Runs.{
  idle_pool, idle-Opened, busy, asked_twice, waited_for, busy_answers, busy_keeps_waiting,
}

-- Handler 7 waits while handler 6 has the cell, which then comes back.
waited_for_cell : 0 < count 0 waited_for.storage.used
unfolding PoolImpl.get_locked PoolImpl.get_unlocked Storage.lease Storage.with_capacity add ◌+ℤ◌
    ◌-ℤ◌ Queue.push Queue.make
waited_for_cell = omega arith

abbrev result : Outcome (PoolImpl ℕ ℕ × List (Event ℕ)) → PoolImpl ℕ ℕ × List (Event ℕ)
result (ok r) = r
result _ = (waited_for, [])

abbrev handed : PoolImpl ℕ ℕ × List (Event ℕ)
handed = result (PoolImpl.recycle (pos 1) (at 0) waited_for)

recycle_hands_on : PoolImpl.recycle (pos 1) (at 0) waited_for ≡ ok (handed.0, handed.1)
unfolding PoolImpl.get_locked PoolImpl.get_unlocked PoolImpl.recycle PoolImpl.reset_cell
    Storage.lease Storage.with_capacity Storage.is_valid Storage.deref add ◌+ℤ◌ ◌-ℤ◌ Queue.push
    Queue.pop Queue.make
recycle_hands_on = refl

abbrev done : List (Action ℕ × List (Answer ℕ))
done =
    (asks 1 6, told (PoolImpl.get_locked (pos 0) 1 6 idle_pool).2)
    ∷ (asks 1 7, told (PoolImpl.get_locked (pos 0) 1 7 busy).2)
    ∷ (goes_on (pos 0) 1 7 (pos 5), told (PoolImpl.get_unlocked (pos 0) 1 7 (pos 5) asked_twice).1)
    ∷ (gives_back 0, told handed.1)
    ∷ []

run_of_two : Trace Does idle_pool done handed.0
run_of_two = takes (locked (pos 0) 1 6 true busy _ busy_answers) (
    takes (locked (pos 0) 1 7 false asked_twice _ busy_keeps_waiting) (
      takes (unlocked (pos 0) 1 7 (pos 5) waited_for _ refl)
        (takes (recycled (pos 1) 0 handed.0 _ waited_for_cell recycle_hands_on) (rests handed.0))))

refines_example : Trace (Allows 1 idle_pool.callbacks.capacity) unused done (seen handed.0)
refines_example = refines 1 idle_pool handed.0 done idle-Opened run_of_two

done_in_order :
    done
    ≡ (asks 1 6, (1, call 6 success (at 0)) ∷ [])
      ∷ (asks 1 7, [])
      ∷ (goes_on (pos 0) 1 7 (pos 5), [])
      ∷ (gives_back 0, (1, call 7 success (at 0)) ∷ [])
      ∷ []
unfolding PoolImpl.get_locked PoolImpl.get_unlocked PoolImpl.recycle PoolImpl.reset_cell
    Storage.lease Storage.with_capacity Storage.is_valid Storage.deref add ◌+ℤ◌ ◌-ℤ◌ Queue.push
    Queue.pop Queue.make run
done_in_order = refl
