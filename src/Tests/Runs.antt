-- ===== src/Tests/Runs.antt =====
-- Runs of an async pool whose only cell is in use when a second client asks.
use resource_pool.Prelude.{
  ℕ, ◌+◌, ◌++◌, ◌==◌, if◌then◌else◌, ◌≡◌, refl, Bool, true, false, some, List, [], ◌∷◌, map, ◌<◌,
  count, arith, ◌≤◌, length,
}
use resource_pool.Prelude.Int.{pos, ◌+ℤ◌, ◌-ℤ◌}
use resource_pool.TimeTraits.{add, time_max}
use resource_pool.Storage
use resource_pool.Storage.{Storage, at}
use resource_pool.Async.Handlers.{Event, run}
use resource_pool.Async.Queue
use resource_pool.Async.Queue.{Queue, QueuedValue, ExpiringRequest}
use resource_pool.Async.Queue.Invariant.{Consistent}
use resource_pool.Async.Queue.Refinement.{view}
use resource_pool.Async.Queue.Conservation.{calls, waiting}
use resource_pool.Async.PoolImpl
use resource_pool.Async.PoolImpl.{PoolImpl}
use resource_pool.Async.Queue.Posts.{completions, cells_of}
use resource_pool.Async.PoolImpl.Disable.{turn_away}
use resource_pool.Async.PoolImpl.Locked.{any_relocks, disable_locked_lem}
use resource_pool.Async.PoolImpl.Runs.{
  Run, start, get_answered, get_unanswered, get_resumed, open_calls, answered_once,
}
use resource_pool.Outcome.{ok, undefined}
use resource_pool.Storage.WellFormed.{WellFormed}
use resource_pool.Async.PoolImpl.Capacity.{within_capacity}
use resource_pool.Async.PoolImpl.Opened.{Opened, with_empty_cells}
use resource_pool.Async.PoolImpl.Ownership.{Clients, opens, asks}
use resource_pool.Async.PoolImpl.Exclusive.{Clients-Owned, exclusive, returnable}
use resource_pool.Async.PoolImpl.Serial.{Serial, gets, work_conserving}
use resource_pool.Async.PoolImpl.Race.{lost_wakeup, left_behind}

-- A pool of one cell, which handler 6 gets; handler 7 waits for it.
abbrev pub idle_pool : PoolImpl ℕ ℕ
idle_pool = PoolImpl.over (Storage.with_capacity 1 time_max time_max) 1 2 0

idle_made : PoolImpl.with_capacity 0 1 2 time_max time_max ≡ ok idle_pool
unfolding PoolImpl.with_capacity PoolImpl.assert_capacity
idle_made = refl

pub idle-Opened : Opened 1 idle_pool
idle-Opened = with_empty_cells 0 1 2 time_max time_max idle_pool idle_made

abbrev pub busy : PoolImpl ℕ ℕ
busy = (PoolImpl.get_locked (pos 0) 1 6 idle_pool).1

abbrev pub asked_twice : PoolImpl ℕ ℕ
asked_twice = (PoolImpl.get_locked (pos 0) 1 7 busy).1

abbrev pub waited_for : PoolImpl ℕ ℕ
waited_for = (PoolImpl.get_unlocked (pos 0) 1 7 (pos 5) asked_twice).0

pub busy_answers :
    PoolImpl.get_locked (pos 0) 1 6 idle_pool
    ≡ (true, busy, (PoolImpl.get_locked (pos 0) 1 6 idle_pool).2)
unfolding PoolImpl.get_locked Storage.lease Storage.with_capacity add ◌+ℤ◌ ◌-ℤ◌
busy_answers = refl

pub busy_keeps_waiting :
    PoolImpl.get_locked (pos 0) 1 7 busy
    ≡ (false, asked_twice, (PoolImpl.get_locked (pos 0) 1 7 busy).2)
unfolding PoolImpl.get_locked Storage.lease Storage.with_capacity add ◌+ℤ◌ ◌-ℤ◌
busy_keeps_waiting = refl

abbrev happened : List (Event ℕ)
happened =
    (([] ++ (PoolImpl.get_locked (pos 0) 1 6 idle_pool).2)
      ++ (PoolImpl.get_locked (pos 0) 1 7 busy).2)
    ++ (PoolImpl.get_unlocked (pos 0) 1 7 (pos 5) asked_twice).1

waited_for-Run : Run 1 waited_for (7 ∷ 6 ∷ []) [] happened
waited_for-Run =
    get_resumed (pos 0) [] [] (record { io_context = 1; handler = 7; wait_duration = pos 5 })
      (get_unanswered (pos 0) 1 7 (pos 5)
        (get_answered (pos 0) 1 6 (start idle_pool idle-Opened) busy_answers) busy_keeps_waiting)
      refl

abbrev any_handler : ℕ → Bool
any_handler h = true

answered_once_example :
    2
    ≡ calls any_handler happened
      + waiting any_handler (view waited_for.callbacks)
      + open_calls any_handler []
answered_once_example =
    answered_once any_handler 1 waited_for (7 ∷ 6 ∷ []) [] happened waited_for-Run

-- Handler 8 would call the pool in place.
abbrev eight_relocks : ℕ → ℕ → Bool
eight_relocks io h = h == 8

disable_locked_lem_example :
    (p' : PoolImpl ℕ ℕ) × (events : List (Event ℕ)) × (PoolImpl.disable_locked eight_relocks
        waited_for
      ≡ some (
          if any_relocks eight_relocks (view waited_for.callbacks)
          then undefined
          else ok (p', events)))
    × (p'.is_disabled ≡ true)
    × (view p'.callbacks ≡ [])
    × (p'.storage ≡ waited_for.storage)
    × (completions events ≡ map turn_away (view waited_for.callbacks))
    × (Consistent waited_for.callbacks → Consistent p'.callbacks)
disable_locked_lem_example = disable_locked_lem eight_relocks waited_for

within_capacity_example :
    WellFormed waited_for.storage × (PoolImpl.available waited_for + PoolImpl.used waited_for ≤ 1)
within_capacity_example = within_capacity 1 waited_for (7 ∷ 6 ∷ []) [] happened waited_for-Run

-- Handler 6 has the only cell.
abbrev in_hand : List ℕ
in_hand = [] ++ cells_of (completions (PoolImpl.get_locked (pos 0) 1 6 idle_pool).2)

busy-Clients : Clients 1 busy in_hand
busy-Clients = asks (pos 0) 1 6 true (opens idle_pool idle-Opened) busy_answers

exclusive_example :
    ((c : ℕ)
      → (count c in_hand ≡ count c busy.storage.used)
        × (count c in_hand + count c busy.storage.available + count c busy.storage.wasted ≤ 1))
    × (length in_hand ≡ PoolImpl.used busy)
    × (length in_hand ≤ 1)
exclusive_example = exclusive 1 busy in_hand busy-Clients

in_hand_cell : 0 < count 0 in_hand
unfolding PoolImpl.get_locked Storage.lease Storage.with_capacity add ◌+ℤ◌ ◌-ℤ◌ run
in_hand_cell = omega arith

returnable_example :
    (r : PoolImpl ℕ ℕ × List (Event ℕ)) × (s : PoolImpl ℕ ℕ × List (Event ℕ)) × (PoolImpl.recycle
        (pos 1)
        (at 0)
        busy
      ≡ ok r)
    × (PoolImpl.waste (at 0) busy ≡ ok s)
returnable_example = returnable 1 busy in_hand 0 (pos 1) busy-Clients in_hand_cell

-- The same with `get` as one step.
abbrev six_got : PoolImpl ℕ ℕ × List (Event ℕ)
six_got = PoolImpl.get (pos 0) (pos 0) 1 6 (pos 5) idle_pool

abbrev seven_asked : PoolImpl ℕ ℕ × List (Event ℕ)
seven_asked = PoolImpl.get (pos 0) (pos 0) 1 7 (pos 5) six_got.0

seven_asked-Serial : Serial 1 seven_asked.0
seven_asked-Serial =
    gets (pos 0) (pos 0) 1 7 (pos 5) {es = seven_asked.1}
      (gets (pos 0) (pos 0) 1 6 (pos 5) {es = six_got.1} (Serial.opens idle_pool idle-Opened) refl)
      refl

seven_waits : 0 < length (view seven_asked.0.callbacks)
unfolding PoolImpl.get PoolImpl.get_locked PoolImpl.get_unlocked Storage.lease Storage.with_capacity
    add ◌+ℤ◌ ◌-ℤ◌ Queue.push Queue.make
seven_waits = omega arith

work_conserving_example :
    (seven_asked.0.is_disabled ≡ false)
    × (PoolImpl.used seven_asked.0 ≡ 1)
    × (PoolImpl.available seven_asked.0 ≡ 0)
work_conserving_example = work_conserving 1 seven_asked.0 seven_asked-Serial seven_waits

busy_facts :
    (busy.is_disabled ≡ false)
    × (length busy.storage.used ≡ busy.storage.nodes)
    × (busy.callbacks.ordered ≡ [])
    × (0 < busy.callbacks.capacity)
    × (0 < count 0 busy.storage.used)
unfolding PoolImpl.get_locked Storage.lease Storage.with_capacity add ◌+ℤ◌ ◌-ℤ◌ Queue.make
busy_facts = (refl, refl, refl, omega arith, omega arith)

lost_wakeup_example :
    (q : PoolImpl ℕ ℕ) × (r : PoolImpl ℕ ℕ) × (es : List (Event ℕ)) × (PoolImpl.get_locked
        (pos 1)
        1
        7
        busy
      ≡ (false, busy, []))
    × (PoolImpl.recycle (pos 2) (at 0) busy ≡ ok (q, []))
    × (PoolImpl.get_unlocked (pos 3) 1 7 (pos 5) q ≡ (r, es))
    × (completions es ≡ [])
    × (view r.callbacks
        ≡ record { io_context = 1; request = 7; expires_at = add (pos 3) (pos 5) } ∷ [])
    × (0 < length r.storage.available + length r.storage.wasted)
lost_wakeup_example =
    let a = Clients-Owned busy-Clients in
    lost_wakeup busy 0 (pos 1) (pos 2) (pos 3) 1 7 (pos 5) a.sound.well_formed a.consistent
      busy_facts.0 busy_facts.1 busy_facts.2 busy_facts.3 busy_facts.4 refl

left_behind_example :
    (q : PoolImpl ℕ ℕ) × (r : PoolImpl ℕ ℕ) × (es : List (Event ℕ)) × (fs : List (Event ℕ))
    × (PoolImpl.get_locked (pos 1) 1 7 busy ≡ (false, busy, []))
    × (PoolImpl.disable busy ≡ some (q, es))
    × (completions es ≡ map turn_away (view busy.callbacks))
    × (PoolImpl.get_unlocked (pos 3) 1 7 (pos 5) q ≡ (r, fs))
    × (completions fs ≡ [])
    × (r.is_disabled ≡ true)
    × (view r.callbacks
        ≡ record { io_context = 1; request = 7; expires_at = add (pos 3) (pos 5) } ∷ [])
left_behind_example =
    let a = Clients-Owned busy-Clients in
    left_behind busy (pos 1) (pos 3) 1 7 (pos 5) a.sound.well_formed a.consistent busy_facts.0
      busy_facts.1 busy_facts.3 refl
