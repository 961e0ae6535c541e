-- ===== src/Tests/Handle.antt =====
-- handle.hpp over a sync pool of two cells, the first of which is lent out.
use resource_pool.Prelude.{ℕ, ◌≡◌, refl, false}
use resource_pool.Prelude.Int.{pos}
use resource_pool.Outcome.{ok}
use resource_pool.Storage.{at}
use resource_pool.Handle.{
  recycle_strategy, waste_strategy, make_handle, empty, destroy, get, move, reset,
}
use resource_pool.Handle.Lifecycle.{returned_once, get-reset, move_lem}
use resource_pool.Sync.PoolImpl
use resource_pool.Sync.PoolImpl.{PoolImpl}
use resource_pool.Storage.Access.{InUse, in_use}
use resource_pool.Sync.Pool.Handles.{sync_returns}
use resource_pool.Tests.Storage.{leased, leased_facts, held}

unfoldable pub lending : PoolImpl ℕ
unfolding leased
lending = PoolImpl.over leased 2

pub lent : InUse (at 0) lending.storage
unfolding lending
lent = in_use 0 refl leased_facts.1 held

returned_once_example :
    destroy sync_returns (pos 1) (make_handle 0 recycle_strategy (at 0)) lending
    ≡ PoolImpl.recycle (pos 1) (at 0) lending
returned_once_example =
    (returned_once sync_returns (pos 1) 0 recycle_strategy (at 0) lending lent).3

get-reset_example :
    (q : PoolImpl ℕ) × (reset sync_returns (pos 1) 42 (make_handle 0 waste_strategy (at 0)) lending
      ≡ ok q)
    × InUse (at 0) q.storage
    × (empty sync_returns (make_handle 0 waste_strategy (at 0)) q ≡ ok false)
    × (get sync_returns (make_handle 0 waste_strategy (at 0)) q ≡ ok 42)
get-reset_example = get-reset sync_returns (pos 1) 0 waste_strategy (at 0) lending 42 lent

move_lem_example :
    destroy sync_returns (pos 1) (move (make_handle 0 recycle_strategy (at 0))).0 lending
    ≡ destroy sync_returns (pos 1) (make_handle 0 recycle_strategy (at 0)) lending
move_lem_example = (move_lem sync_returns (make_handle 0 recycle_strategy (at 0))).1 (pos 1) lending
