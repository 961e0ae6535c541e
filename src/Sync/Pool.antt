-- ===== src/Sync/Pool.antt =====
-- include/yamail/resource_pool/sync/pool.hpp: the pool that clients see, and its handles.
pub mod Handles
use resource_pool.Prelude.{
  ℕ, suc, ◌<◌, ◌≡◌, refl, if◌then◌else◌, ◌==◌, ltb, Option, none, some, List, [], ◌∷◌, true, false,
  contains, count, arith, sym, ◌∙◌,
}
use mathlib.Core.Option
use resource_pool.Outcome.{Outcome, ok, undefined, ◌>>=◌, require}
use resource_pool.Idle.{Idle, update}
use resource_pool.Error.{ErrorCode}
use resource_pool.TimeTraits.{TimePoint, Duration}
use resource_pool.Storage.{Storage, CellIterator, at, deref}
use resource_pool.Handle.{
  PoolReturns, Handle, Strategy, waste_strategy, recycle_strategy, make_handle,
}
use resource_pool.Sync.PoolImpl
use resource_pool.Sync.PoolImpl.{PoolImpl, Stats, Wakeup}

-- `_impl` is a `shared_ptr`: the number of the implementation, or `none` for the null pointer that a
-- move leaves behind. The one implementation that there is has the number 0.
pub record Pool : Type 0 where
  pub impl : Option ℕ

unfoldable pub the_impl : Pool → Outcome ℕ
the_impl pool = elim pool.impl [ none ↦ undefined | some i ↦ ok i ]

-- `pool(std::shared_ptr<pool_impl>)`
abbrev of_impl : Option ℕ → Pool
of_impl impl = record { impl = impl }

-- `pool(pool&&)`: the new pool, and what is left of the other.
unfoldable pub move : Pool → Pool × Pool
move other = (record { impl = other.impl }, record { impl = none })

-- `operator =(pool&&)` lets the old implementation go without a call of its `disable`.
unfoldable pub move_assign : Pool → Pool → Pool × Pool
move_assign pool other = (record pool { impl = other.impl }, record { impl = none })

-- A cell read and written through its iterator, and the pool's functions as handles call them.
module _ {ℓ} {T : Type ℓ} where
  -- `make_shared` of the two constructors over a pool made here.
  unfoldable pub make : ℕ → Duration → Duration → Outcome (Pool × PoolImpl T)
  make capacity idle_timeout lifespan = do
    p ← PoolImpl.with_capacity capacity idle_timeout lifespan
    ok (of_impl (some 0), p)

  -- `~pool()`
  unfoldable pub destroy : Pool → PoolImpl T → PoolImpl T
  destroy pool p = elim pool.impl [ none ↦ p | some _ ↦ PoolImpl.disable p ]

  unfoldable pub capacity : Pool → PoolImpl T → Outcome ℕ
  unfolding the_impl
  capacity pool p = do _ ← the_impl pool; ok p.capacity

  unfoldable pub size : Pool → PoolImpl T → Outcome ℕ
  unfolding the_impl
  size pool p = do _ ← the_impl pool; ok (PoolImpl.size p)

  unfoldable pub available : Pool → PoolImpl T → Outcome ℕ
  unfolding the_impl
  available pool p = do _ ← the_impl pool; ok (PoolImpl.available p)

  unfoldable pub used : Pool → PoolImpl T → Outcome ℕ
  unfolding the_impl
  used pool p = do _ ← the_impl pool; ok (PoolImpl.used p)

  unfoldable pub stats : Pool → PoolImpl T → Outcome Stats
  unfolding the_impl
  stats pool p = do _ ← the_impl pool; ok (PoolImpl.stats p)

  unfoldable pub invalidate : Pool → PoolImpl T → Outcome (PoolImpl T)
  unfolding the_impl
  invalidate pool p = do _ ← the_impl pool; ok (PoolImpl.invalidate p)

  unfoldable pub get_handle :
      Pool
      → Strategy
      → TimePoint
      → List (Wakeup T)
      → PoolImpl T
      → Outcome (Option (ErrorCode × Handle) × PoolImpl T)
  unfolding the_impl
  get_handle pool strategy now wakes p = do
    impl ← the_impl pool
    let (result, q) = PoolImpl.get now wakes p
    ok (Option.map (λ r. (r.0, make_handle impl strategy r.1)) result, q)

  unfoldable pub get_auto_waste :
      Pool
      → TimePoint
      → List (Wakeup T)
      → PoolImpl T
      → Outcome (Option (ErrorCode × Handle) × PoolImpl T)
  unfolding get_handle
  get_auto_waste pool now wakes p = get_handle pool waste_strategy now wakes p

  unfoldable pub get_auto_recycle :
      Pool
      → TimePoint
      → List (Wakeup T)
      → PoolImpl T
      → Outcome (Option (ErrorCode × Handle) × PoolImpl T)
  unfolding get_handle
  get_auto_recycle pool now wakes p = get_handle pool recycle_strategy now wakes p
