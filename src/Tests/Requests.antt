-- ===== src/Tests/Requests.antt =====
-- The request queue: a queue of two requests.
use resource_pool.Prelude.{
  ℕ, ◌≡◌, refl, if◌then◌else◌, Bool, true, false, ◌≤◌, [], ◌∷◌, erase, ◌<◌, count, arith, length,
  ap,
}
use resource_pool.Prelude.Int.{pos, ◌+ℤ◌, ◌-ℤ◌, ◌≤ℤ◌}
use resource_pool.Error.{success, failed, ErrorCode}
use resource_pool.TimeTraits.{TimePoint, Duration, add}
use resource_pool.Async.Queue
use resource_pool.Async.Queue.{Queue, QueuedValue, ExpiringRequest}
use resource_pool.Async.Queue.Invariant.{Consistent, make-Consistent}
use resource_pool.Async.Queue.Operations.{push-Consistent, operations_keep}
use resource_pool.Async.Queue.Refinement.{
  view, take_request, give_request, still_waiting, push-view, pop-view, cancel-view,
}
use resource_pool.Async.Queue.Conservation.{calls, waiting}
use resource_pool.Async.Handlers.{set_timer, wait_timer}
use resource_pool.Async.Queue.Timers.{update_timer-earliest}
use resource_pool.Async.Queue.Expiry.{awaited, fires, fires_all}

abbrev nobody : Queue ℕ
nobody = Queue.make 2 0

nobody-Consistent : Consistent nobody
nobody-Consistent = make-Consistent 2 0

-- Handler 7 asks at time 0 and waits 5, handler 8 asks at time 1 and waits 2.
abbrev first_waits : Queue ℕ
first_waits = (Queue.push 1 (pos 5) 7 (pos 0) nobody).1

first_waits-Consistent : Consistent first_waits
first_waits-Consistent = push-Consistent nobody nobody-Consistent 1 (pos 5) 7 (pos 0)

abbrev pub both_wait : Queue ℕ
both_wait = (Queue.push 2 (pos 2) 8 (pos 1) first_waits).1

both_wait-Consistent : Consistent both_wait
both_wait-Consistent = push-Consistent first_waits first_waits-Consistent 2 (pos 2) 8 (pos 1)

abbrev pub seven : ExpiringRequest ℕ
seven = record { io_context = 1; request = 7; expires_at = pos 5 }

abbrev pub eight : ExpiringRequest ℕ
eight = record { io_context = 2; request = 8; expires_at = pos 3 }

pub view-both_wait : view both_wait ≡ seven ∷ eight ∷ []
unfolding Queue.push add ◌+ℤ◌ ◌-ℤ◌ Queue.make
view-both_wait = refl

-- The timer of handler 8 ends first, at time 3.
cancel-both_wait : view (Queue.cancel success (pos 3) both_wait).0 ≡ seven ∷ []
unfolding Queue.cancel Queue.push add ◌+ℤ◌ ◌-ℤ◌ Queue.make failed erase
cancel-both_wait = refl

operations_keep_example :
    ((io : ℕ) (wait_duration : Duration) (request : ℕ) (now : TimePoint)
      → Consistent (Queue.push io wait_duration request now both_wait).1)
    × Consistent (Queue.pop both_wait).1
    × ((ec : ErrorCode) (t : TimePoint) → Consistent (Queue.cancel ec t both_wait).0)
    × ((io : ℕ) → Consistent (Queue.timer io both_wait))
operations_keep_example = operations_keep both_wait both_wait-Consistent

push-view_example :
    let r = Queue.push 2 (pos 2) 8 (pos 1) first_waits in
    ((r.0, view r.1)
      ≡ take_request 2
          (record { io_context = 2; request = 8; expires_at = add (pos 1) (pos 2) })
          (view first_waits))
    × (2 ≤ length (view first_waits) → r ≡ (false, first_waits, []))
unfolding Queue.make Queue.push
push-view_example = push-view first_waits first_waits-Consistent 2 (pos 2) 8 (pos 1)

pop-view_example :
    ((Queue.pop both_wait).0, view (Queue.pop both_wait).1) ≡ give_request (view both_wait)
pop-view_example = pop-view both_wait

cancel-view_example :
    (view (Queue.cancel success (pos 3) both_wait).0
      ≡ (if failed success then view both_wait else still_waiting (pos 3) (view both_wait)))
    × (failed success ≡ true → Queue.cancel success (pos 3) both_wait ≡ (both_wait, []))
cancel-view_example = cancel-view both_wait both_wait-Consistent success (pos 3)

-- Handler 8 expires first: the timer is set to its time.
update_timer-earliest_example :
    (m : ℕ) × (0 < count m both_wait.ordered)
    × ((Queue.update_timer both_wait).1
        ≡ set_timer (both_wait.requests m).io_context (both_wait.requests m).expires_at
          ∷ wait_timer (both_wait.requests m).io_context (both_wait.requests m).expires_at
          ∷ [])
    × ((both_wait.requests m).expires_at ≤ℤ (both_wait.requests 0).expires_at)
unfolding Queue.push add ◌+ℤ◌ ◌-ℤ◌ Queue.make
update_timer-earliest_example = update_timer-earliest both_wait both_wait-Consistent 0 (omega arith)

both_taken : (Queue.push 2 (pos 2) 8 (pos 1) first_waits).0 ≡ true
unfolding Queue.push add ◌+ℤ◌ ◌-ℤ◌ Queue.make
both_taken = refl

-- Both ends of waits, one after the other.
fires_all_example :
    let r = Queue.push 2 (pos 2) 8 (pos 1) first_waits in
    (view (fires 2 (awaited r.2) r.1).0 ≡ [])
    × ((chosen : ℕ → Bool) → calls chosen (fires 2 (awaited r.2) r.1).1 ≡ waiting chosen (view r.1))
fires_all_example =
    fires_all 2 first_waits first_waits-Consistent 2 (pos 2) 8 (pos 1) both_taken
      (omega (arith, ap length view-both_wait))
