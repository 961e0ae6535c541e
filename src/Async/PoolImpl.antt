-- ===== src/Async/PoolImpl.antt =====
-- include/yamail/resource_pool/async/detail/pool_impl.hpp. What runs under the mutex is one step;
-- `get` gives the mutex up between `lease` and `push`, so it is two. An operation returns, beside
-- the new state, what it asks Boost.Asio to do, in order.
pub mod Answers
pub mod Disable
pub mod Locked
pub mod Opened
pub mod Runs
pub mod Serving
pub mod Cells
pub mod Comeback
pub mod Capacity
pub mod Cases
pub mod Handback
pub mod Ownership
pub mod Exclusive
pub mod Busy
pub mod Turns
pub mod Serial
pub mod Race
pub mod Promise
pub mod Simulation
pub mod Refines
pub mod Rounds
use resource_pool.Prelude.{
  ℕ, zero, suc, ◌+◌, ◌≡◌, ◌==◌, if◌then◌else◌, Bool, true, false, Option, none, some, List, [], ◌∷◌,
  ◌++◌, length,
}
use resource_pool.Outcome.{Outcome, ok, throws, undefined, ◌>>=◌, zero_pool_capacity}
use resource_pool.Prelude.Int.{ℤ, pos, negsuc}
use resource_pool.Error.{
  make_error_code, success, get_resource_timeout, request_queue_overflow, disabled,
}
use resource_pool.Idle.{reset_value}
use resource_pool.TimeTraits.{TimePoint, Duration}
use resource_pool.Storage
use resource_pool.Storage.{Storage, CellIterator, singular, deref}
use resource_pool.Async.Handlers.{
  Event, post, dispatch, on_list_iterator_handler, on_error_handler, on_serve_queued_handler,
}
use resource_pool.Async.Queue
use resource_pool.Async.Queue.{Queue, QueuedValue}

pub record Stats : Type 0 where
  pub size : ℕ
  pub available : ℕ
  pub used : ℕ
  pub queue_size : ℕ

-- `H` is the type of the clients' handlers, `T` that of the resources.
pub record PoolImpl {ℓ} (H T : Type ℓ) : Type ℓ where
  pub storage : Storage T
  pub capacity : ℕ
  pub callbacks : Queue H
  pub is_disabled : Bool

unfoldable pub assert_capacity : ℕ → Outcome ℕ
assert_capacity value = if value == 0 then throws zero_pool_capacity else ok value

-- `wait_duration.count() == 0`
abbrev pub is_zero : Duration → Bool
is_zero (pos n) = n == 0
is_zero (negsuc n) = false

-- `*first++` on call `i` is element `i` of the range; past its end is the value `beyond`, which is
-- not reached.
abbrev pub element {ℓ} : {T : Type ℓ} → T → List T → ℕ → T
element beyond [] i = beyond
element beyond (v ∷ vs) zero = v
element beyond (v ∷ vs) (suc i) = element beyond vs i

-- `res_it->value.reset()`
unfoldable pub reset_cell {ℓ} : {T : Type ℓ} → CellIterator → Storage T → Outcome (Storage T)
reset_cell it s = do c ← deref it s; ok (record s { cells = reset_value s.cells c })

abbrev pub serve {ℓ} : {H : Type ℓ} → QueuedValue H → CellIterator → Event H
serve queued it = post queued.io_context (on_serve_queued_handler it queued.request)

-- The loop of `disable`, with fuel; `none` if that runs out.
unfoldable pub drain {ℓ} : {H : Type ℓ} → ℕ → Queue H → Option (Queue H × List (Event H))
drain zero q = none
drain (suc fuel) q =
    let (queued, callbacks, events) = Queue.pop q in
    let rest = drain fuel callbacks in
    elim queued [
      | none ↦ some (callbacks, events)
      | some value ↦ elim rest [
        | none ↦ none
        | some (q', later) ↦ some (
          q',
          events
              ++ dispatch value.io_context
                  (on_error_handler (make_error_code disabled) value.request)
                ∷ later,
        )
      ]
    ]

-- The same loop where `dispatch` may run a handler in place.
unfoldable pub drain_locked {ℓ} :
    {H : Type ℓ} → (ℕ → H → Bool) → ℕ → Queue H → Option (Outcome (Queue H × List (Event H)))
drain_locked relocks zero q = none
drain_locked relocks (suc fuel) q =
    let (queued, callbacks, events) = Queue.pop q in
    let rest = drain_locked relocks fuel callbacks in
    elim queued [
      | none ↦ some (ok (callbacks, events))
      | some value ↦
          let answer =
            dispatch value.io_context (on_error_handler (make_error_code disabled) value.request) in
          if relocks value.io_context value.request then some undefined else elim rest [
            | none ↦ none
            | some o ↦ some (do (q', later) ← o; ok (q', events ++ answer ∷ later))
          ]
    ]

module _ {ℓ} {H T : Type ℓ} where
  abbrev pub over : Storage T → ℕ → ℕ → H → PoolImpl H T
  over s capacity queue_capacity blank = record {
    storage = s;
    capacity = capacity;
    callbacks = Queue.make queue_capacity blank;
    is_disabled = false;
  }

  -- The three constructors; `blank` is the default-constructed `list_iterator_handler`.
  unfoldable pub with_capacity : H → ℕ → ℕ → Duration → Duration → Outcome (PoolImpl H T)
  unfolding assert_capacity
  with_capacity blank capacity queue_capacity idle_timeout lifespan = do
    n ← assert_capacity capacity
    ok (over (Storage.with_capacity n idle_timeout lifespan) capacity queue_capacity blank)

  unfoldable pub with_generator :
      H → TimePoint → (ℕ → T) → ℕ → ℕ → Duration → Duration → Outcome (PoolImpl H T)
  unfolding assert_capacity
  with_generator blank now generator capacity queue_capacity idle_timeout lifespan = do
    n ← assert_capacity capacity
    m ← assert_capacity capacity
    ok (over (Storage.with_generator now generator n idle_timeout lifespan) m queue_capacity blank)

  unfoldable pub with_range :
      H → TimePoint → T → List T → ℕ → Duration → Duration → Outcome (PoolImpl H T)
  unfolding with_generator
  with_range blank now beyond values queue_capacity idle_timeout lifespan =
      with_generator blank now (element beyond values) (length values) queue_capacity idle_timeout
        lifespan

  unfoldable pub size : PoolImpl H T → ℕ
  size p = let st = Storage.stats p.storage in st.available + st.used

  unfoldable pub available : PoolImpl H T → ℕ
  available p = (Storage.stats p.storage).available

  unfoldable pub used : PoolImpl H T → ℕ
  used p = (Storage.stats p.storage).used

  unfoldable pub stats : PoolImpl H T → Stats
  stats p =
      let st = Storage.stats p.storage in
      record {
        size = st.available + st.used;
        available = st.available;
        used = st.used;
        queue_size = Queue.size p.callbacks;
      }

  unfoldable pub recycle :
      TimePoint → CellIterator → PoolImpl H T → Outcome (PoolImpl H T × List (Event H))
  unfolding reset_cell
  recycle now it p =
      let (queued, callbacks, events) = Queue.pop p.callbacks in
      elim queued [
        | none ↦ (do
          s ← Storage.recycle now it p.storage
          ok (record p { storage = s; callbacks = callbacks }, events))
        | some value ↦ (do
          valid ← Storage.is_valid now it p.storage
          s ← (if valid then ok p.storage else reset_cell it p.storage)
          ok (record p { storage = s; callbacks = callbacks }, events ++ serve value it ∷ []))
      ]

  unfoldable pub waste : CellIterator → PoolImpl H T → Outcome (PoolImpl H T × List (Event H))
  unfolding reset_cell
  waste it p =
      let (queued, callbacks, events) = Queue.pop p.callbacks in
      elim queued [
        | none ↦ (do
          s ← Storage.waste it p.storage
          ok (record p { storage = s; callbacks = callbacks }, events))
        | some value ↦ (do
          s ← reset_cell it p.storage
          ok (record p { storage = s; callbacks = callbacks }, events ++ serve value it ∷ []))
      ]

  -- The part of `get` under the mutex; `false` if the call is not answered yet.
  unfoldable pub get_locked :
      TimePoint → ℕ → H → PoolImpl H T → Bool × PoolImpl H T × List (Event H)
  get_locked now io handler p =
      if p.is_disabled
      then (
        true,
        p,
        dispatch io (on_list_iterator_handler (make_error_code disabled) singular handler) ∷ [],
      )
      else (let (cell, s) = Storage.lease now p.storage in
          elim cell [
            | none ↦ (false, record p { storage = s }, [])
            | some it ↦ (
              true,
              record p { storage = s },
              post io (on_list_iterator_handler success it handler) ∷ [],
            )
          ])

  -- The part of `get` behind it; `push` has a mutex of its own.
  unfoldable pub get_unlocked :
      TimePoint → ℕ → H → Duration → PoolImpl H T → PoolImpl H T × List (Event H)
  get_unlocked now io handler wait_duration p =
      if is_zero wait_duration
      then (
        p,
        post io (on_list_iterator_handler (make_error_code get_resource_timeout) singular handler)
            ∷ [],
      )
      else (let (pushed, callbacks, events) = Queue.push io wait_duration handler now p.callbacks in
          if pushed then (record p { callbacks = callbacks }, events) else (
            p,
            post io (on_error_handler (make_error_code request_queue_overflow) handler) ∷ [],
          ))

  -- `get` with no other thread in between; `later` is the clock's reading in `push`.
  unfoldable pub get :
      TimePoint → TimePoint → ℕ → H → Duration → PoolImpl H T → PoolImpl H T × List (Event H)
  unfolding get_locked get_unlocked
  get now later io handler wait_duration p =
      let (answered, q, events) = get_locked now io handler p in
      if answered then (q, events) else get_unlocked later io handler wait_duration q

  -- `disable` where no handler runs in place and nothing comes between its rounds: what is dispatched is left
  -- to the contexts, in order.
  unfoldable pub disable : PoolImpl H T → Option (PoolImpl H T × List (Event H))
  unfolding drain
  disable p = elim (drain (suc (length p.callbacks.ordered)) p.callbacks) [
    | none ↦ none
    | some (callbacks, events) ↦
        some (record p { callbacks = callbacks; is_disabled = true }, events)
  ]

  -- The start of `disable`, and one round of its loop that finds a request. The mutex of the pool keeps no
  -- timer and no `push` out between the rounds.
  unfoldable pub set_disabled : PoolImpl H T → PoolImpl H T
  set_disabled p = record p { is_disabled = true }

  unfoldable pub turn_next_away : PoolImpl H T → Option (PoolImpl H T × List (Event H))
  turn_next_away p =
      let (queued, callbacks, events) = Queue.pop p.callbacks in
      elim queued [
        | none ↦ none
        | some value ↦ some (
          record p { callbacks = callbacks },
          events
              ++ dispatch value.io_context
                  (on_error_handler (make_error_code disabled) value.request)
                ∷ [],
        )
      ]

  -- `disable` where `dispatch` may run a handler in place, with the mutex of the pool locked. `relocks io h`
  -- tells that handler `h` runs in place if it is dispatched to context `io`, and calls the pool: locking a
  -- `std::mutex` twice in one thread is undefined behaviour.
  unfoldable pub disable_locked :
      (ℕ → H → Bool) → PoolImpl H T → Option (Outcome (PoolImpl H T × List (Event H)))
  unfolding drain_locked
  disable_locked relocks p =
      elim (drain_locked relocks (suc (length p.callbacks.ordered)) p.callbacks) [
        | none ↦ none
        | some o ↦ some (do
          (callbacks, events) ← o
          ok (record p { callbacks = callbacks; is_disabled = true }, events))
      ]

  unfoldable pub invalidate : PoolImpl H T → PoolImpl H T
  invalidate p = record p { storage = Storage.invalidate p.storage }
