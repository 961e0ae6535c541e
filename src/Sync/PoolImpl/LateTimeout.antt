-- ===== src/Sync/PoolImpl/LateTimeout.antt =====
-- sync/detail/pool_impl.hpp: `get` does not call `lease` again when `wait_for` tells it that its time is up.
use resource_pool.Storage
use resource_pool.Storage.{Storage}
use resource_pool.Storage.WellFormed.{WellFormed}
use resource_pool.Sync.PoolImpl.{PoolImpl}
