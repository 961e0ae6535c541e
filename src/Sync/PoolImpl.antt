-- ===== src/Sync/PoolImpl.antt =====
-- include/yamail/resource_pool/sync/detail/pool_impl.hpp. Each operation runs under the mutex, so
-- it is one step; `get` gives the mutex up while it waits.
--
-- A condition variable is the number of threads that wait on it and the number that have been woken
-- and have not gone on yet: `notify_one` and `notify_all` move threads from the first to the second.
pub mod Opened
pub mod Get
pub mod Steps
pub mod Waiting
pub mod LateTimeout
pub mod Clients
pub mod Exclusive
use resource_pool.Prelude.{
  ℕ, zero, suc, ◌+◌, ◌≡◌, ◌==◌, if◌then◌else◌, Bool, true, false, Option, none, some, List, [], ◌∷◌,
}
use mathlib.Core.Option
use resource_pool.Outcome.{Outcome, ok, throws, ◌>>=◌, zero_pool_capacity}
use resource_pool.Error.{ErrorCode, make_error_code, success, get_resource_timeout, disabled}
use resource_pool.TimeTraits.{TimePoint, Duration}
use resource_pool.Storage
use resource_pool.Storage.{Storage, CellIterator, singular, StorageStats}

pub record CondVar : Type 0 where
  pub waiting : ℕ
  pub notified : ℕ

unfoldable pub notify_one : CondVar → CondVar
notify_one cv = elim cv.waiting [
  | zero ↦ cv
  | suc n ↦ record { waiting = n; notified = suc cv.notified }
]

unfoldable pub notify_all : CondVar → CondVar
notify_all cv = record { waiting = 0; notified = cv.notified + cv.waiting }

pub record Stats : Type 0 where
  pub size : ℕ
  pub available : ℕ
  pub used : ℕ

pub record PoolImpl {ℓ} (T : Type ℓ) : Type ℓ where
  pub storage : Storage T
  pub capacity : ℕ
  pub has_capacity : CondVar
  pub is_disabled : Bool

abbrev pub GetResult : Type 0
GetResult = ErrorCode × CellIterator

unfoldable pub assert_capacity : ℕ → Outcome ℕ
assert_capacity value = if value == 0 then throws zero_pool_capacity else ok value

abbrev pub no_waiters : CondVar
no_waiters = record { waiting = 0; notified = 0 }

-- `std::cv_status`
pub data CvStatus : Type 0 where
  no_timeout timeout : CvStatus

-- One return of `wait_for`: what the other threads and the condition variable have done to the pool
-- meanwhile, whether the wait ran out, and the clock when the mutex is held again.
pub record Wakeup {ℓ} (T : Type ℓ) : Type ℓ where
  pub meanwhile : PoolImpl T → PoolImpl T
  pub status : CvStatus
  pub now : TimePoint

module _ {ℓ} {T : Type ℓ} where
  abbrev pub over : Storage T → ℕ → PoolImpl T
  over s capacity = record {
    storage = s;
    capacity = capacity;
    has_capacity = no_waiters;
    is_disabled = false;
  }

  -- The two constructors.
  unfoldable pub with_capacity : ℕ → Duration → Duration → Outcome (PoolImpl T)
  unfolding assert_capacity
  with_capacity capacity idle_timeout lifespan = do
    n ← assert_capacity capacity
    ok (over (Storage.with_capacity n idle_timeout lifespan) capacity)

  unfoldable pub with_generator :
      TimePoint → (ℕ → T) → ℕ → Duration → Duration → Outcome (PoolImpl T)
  unfolding assert_capacity
  with_generator now generator capacity idle_timeout lifespan = do
    n ← assert_capacity capacity
    ok (over (Storage.with_generator now generator n idle_timeout lifespan) capacity)

  unfoldable pub size : PoolImpl T → ℕ
  size p = let st = Storage.stats p.storage in st.available + st.used

  unfoldable pub available : PoolImpl T → ℕ
  available p = (Storage.stats p.storage).available

  unfoldable pub used : PoolImpl T → ℕ
  used p = (Storage.stats p.storage).used

  unfoldable pub stats : PoolImpl T → Stats
  stats p =
      let st = Storage.stats p.storage in
      record { size = st.available + st.used; available = st.available; used = st.used }

  unfoldable pub recycle : TimePoint → CellIterator → PoolImpl T → Outcome (PoolImpl T)
  unfolding notify_one
  recycle now it p = do
    s ← Storage.recycle now it p.storage
    ok (record p { storage = s; has_capacity = notify_one p.has_capacity })

  unfoldable pub waste : CellIterator → PoolImpl T → Outcome (PoolImpl T)
  unfolding notify_one
  waste it p = do
    s ← Storage.waste it p.storage
    ok (record p { storage = s; has_capacity = notify_one p.has_capacity })

  unfoldable pub disable : PoolImpl T → PoolImpl T
  unfolding notify_all
  disable p = record p { is_disabled = true; has_capacity = notify_all p.has_capacity }

  unfoldable pub invalidate : PoolImpl T → PoolImpl T
  invalidate p = record p { storage = Storage.invalidate p.storage }

  -- One round of the loop of `get`: its result, or `none` where it goes on to `wait_for`.
  unfoldable pub attempt : TimePoint → PoolImpl T → Option GetResult × PoolImpl T
  attempt now p =
      if p.is_disabled
      then (some (make_error_code disabled, singular), p)
      else (let (cell, s) = Storage.lease now p.storage in
          (Option.map (λ it. (success, it)) cell, record p { storage = s }))

  -- The thread joins those that wait, and gives up the mutex.
  unfoldable pub block : PoolImpl T → PoolImpl T
  block p = record p {
    has_capacity = record {
      waiting = suc p.has_capacity.waiting;
      notified = p.has_capacity.notified;
    };
  }

  -- A result ends the loop; without one the thread waits.
  abbrev pub or_wait :
      Option GetResult × PoolImpl T
      → (PoolImpl T → Option GetResult × PoolImpl T)
      → Option GetResult × PoolImpl T
  or_wait (some r, q) wait = (some r, q)
  or_wait (none, q) wait = wait q

  -- `get`, with what `wait_for` does each time that it is called; `none` while the thread waits.
  unfoldable pub get : TimePoint → List (Wakeup T) → PoolImpl T → Option GetResult × PoolImpl T
  unfolding attempt block
  get now [] p = or_wait (attempt now p) (λ q. (none, block q))
  get now (wake ∷ wakes) p = or_wait (attempt now p) (λ q.
      let woken = wake.meanwhile (block q) in
      let rest = get wake.now wakes woken in
      elim wake.status [
        | timeout ↦ (some (make_error_code get_resource_timeout, singular), woken)
        | no_timeout ↦ rest
      ])
