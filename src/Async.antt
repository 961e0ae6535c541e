-- ===== src/Async.antt =====
-- include/yamail/resource_pool/async: the pool whose clients are called back.
pub mod Handlers
pub mod Queue
pub mod PoolImpl
pub mod Pool
pub mod Executors
