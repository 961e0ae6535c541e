-- ===== src/Async/Pool.antt =====
-- include/yamail/resource_pool/async/pool.hpp: the pool that clients see. A client's handler of type
-- `C` takes an error code and a handle; with its strategy and the pool it makes the handler that the
-- implementation is given, `on_get_handler`.
pub mod Handles
pub mod Returns
use resource_pool.Prelude.{ℕ, if◌then◌else◌, Option, none, some, List, []}
use resource_pool.Outcome.{Outcome, ok, undefined, ◌>>=◌}
use resource_pool.Error.{ErrorCode, failed}
use resource_pool.TimeTraits.{TimePoint, Duration}
use resource_pool.Handle.{
  Handle, Strategy, waste_strategy, recycle_strategy, make_handle, default_handle,
}
use resource_pool.Async.Handlers.{Event, Call}
use resource_pool.Async.PoolImpl
use resource_pool.Async.PoolImpl.{PoolImpl, Stats}

pub record OnGetHandler {ℓ} (C : Type ℓ) : Type ℓ where
  pub impl : ℕ
  pub use_strategy : Strategy
  pub handler : C

-- A call of a client's handler.
pub record ClientCall {ℓ} (C : Type ℓ) : Type ℓ where
  pub handler : C
  pub error : ErrorCode
  pub handle : Handle

-- `on_get_handler::operator ()`
unfoldable pub on_get {ℓ} : {C : Type ℓ} → Call (OnGetHandler C) → ClientCall C
on_get c =
    if failed c.error
    then record { handler = c.handler.handler; error = c.error; handle = default_handle }
    else record {
      handler = c.handler.handler;
      error = c.error;
      handle = make_handle c.handler.impl c.handler.use_strategy c.cell;
    }

-- `_impl` is a `shared_ptr`: the number of the implementation, or `none` for the null pointer.
pub record Pool : Type 0 where
  pub impl : Option ℕ

unfoldable pub the_impl : Pool → Outcome ℕ
the_impl pool = elim pool.impl [ none ↦ undefined | some i ↦ ok i ]

-- `pool(std::shared_ptr<pool_impl>)`
abbrev of_impl : Option ℕ → Pool
of_impl impl = record { impl = impl }

-- `pool(pool&&)`: the new pool, and what is left of the other.
unfoldable pub move : Pool → Pool × Pool
move other = (record { impl = other.impl }, record { impl = none })

-- `operator =(pool&&)` lets the old implementation go without a call of its `disable`.
unfoldable pub move_assign : Pool → Pool → Pool × Pool
move_assign pool other = (record pool { impl = other.impl }, record { impl = none })

unfoldable pub make_on_get_handler {ℓ} : {C : Type ℓ} → ℕ → Strategy → C → OnGetHandler C
make_on_get_handler impl strategy handler = record {
  impl = impl;
  use_strategy = strategy;
  handler = handler;
}

module _ {ℓ} {C T : Type ℓ} where
  -- `make_shared` of the constructors.
  abbrev pub shared : PoolImpl (OnGetHandler C) T → Outcome (Pool × PoolImpl (OnGetHandler C) T)
  shared p = ok (of_impl (some 0), p)

  unfoldable pub make :
      OnGetHandler C → ℕ → ℕ → Duration → Duration → Outcome (Pool × PoolImpl (OnGetHandler C) T)
  make blank capacity queue_capacity idle_timeout lifespan =
      PoolImpl.with_capacity blank capacity queue_capacity idle_timeout lifespan >>= shared

  unfoldable pub make_with_generator :
      OnGetHandler C
      → TimePoint
      → (ℕ → T)
      → ℕ
      → ℕ
      → Duration
      → Duration
      → Outcome (Pool × PoolImpl (OnGetHandler C) T)
  make_with_generator blank now generator capacity queue_capacity idle_timeout lifespan =
      PoolImpl.with_generator blank now generator capacity queue_capacity idle_timeout lifespan
      >>= shared

  unfoldable pub make_with_range :
      OnGetHandler C
      → TimePoint
      → T
      → List T
      → ℕ
      → Duration
      → Duration
      → Outcome (Pool × PoolImpl (OnGetHandler C) T)
  make_with_range blank now beyond values queue_capacity idle_timeout lifespan =
      PoolImpl.with_range blank now beyond values queue_capacity idle_timeout lifespan >>= shared

  -- `~pool()`; `none` if the loop of `disable` runs out of fuel.
  unfoldable pub destroy :
      Pool
      → PoolImpl (OnGetHandler C) T
      → Option (PoolImpl (OnGetHandler C) T × List (Event (OnGetHandler C)))
  destroy pool p = elim pool.impl [ none ↦ some (p, []) | some _ ↦ PoolImpl.disable p ]

  unfoldable pub capacity : Pool → PoolImpl (OnGetHandler C) T → Outcome ℕ
  unfolding the_impl
  capacity pool p = do _ ← the_impl pool; ok p.capacity

  unfoldable pub size : Pool → PoolImpl (OnGetHandler C) T → Outcome ℕ
  unfolding the_impl
  size pool p = do _ ← the_impl pool; ok (PoolImpl.size p)

  unfoldable pub available : Pool → PoolImpl (OnGetHandler C) T → Outcome ℕ
  unfolding the_impl
  available pool p = do _ ← the_impl pool; ok (PoolImpl.available p)

  unfoldable pub used : Pool → PoolImpl (OnGetHandler C) T → Outcome ℕ
  unfolding the_impl
  used pool p = do _ ← the_impl pool; ok (PoolImpl.used p)

  unfoldable pub stats : Pool → PoolImpl (OnGetHandler C) T → Outcome Stats
  unfolding the_impl
  stats pool p = do _ ← the_impl pool; ok (PoolImpl.stats p)

  unfoldable pub invalidate :
      Pool → PoolImpl (OnGetHandler C) T → Outcome (PoolImpl (OnGetHandler C) T)
  unfolding the_impl
  invalidate pool p = do _ ← the_impl pool; ok (PoolImpl.invalidate p)

  unfoldable pub get :
      Pool
      → TimePoint
      → TimePoint
      → ℕ
      → C
      → Strategy
      → Duration
      → PoolImpl (OnGetHandler C) T
      → Outcome (PoolImpl (OnGetHandler C) T × List (Event (OnGetHandler C)))
  unfolding the_impl make_on_get_handler
  get pool now later io handler strategy wait_duration p = do
    impl ← the_impl pool
    ok (PoolImpl.get now later io (make_on_get_handler impl strategy handler) wait_duration p)

  unfoldable pub get_auto_waste :
      Pool
      → TimePoint
      → TimePoint
      → ℕ
      → C
      → Duration
      → PoolImpl (OnGetHandler C) T
      → Outcome (PoolImpl (OnGetHandler C) T × List (Event (OnGetHandler C)))
  unfolding get
  get_auto_waste pool now later io handler wait_duration p =
      get pool now later io handler waste_strategy wait_duration p

  unfoldable pub get_auto_recycle :
      Pool
      → TimePoint
      → TimePoint
      → ℕ
      → C
      → Duration
      → PoolImpl (OnGetHandler C) T
      → Outcome (PoolImpl (OnGetHandler C) T × List (Event (OnGetHandler C)))
  unfolding get
  get_auto_recycle pool now later io handler wait_duration p =
      get pool now later io handler recycle_strategy wait_duration p
