-- ===== src/Sync.antt =====
-- include/yamail/resource_pool/sync: the pool whose clients block.
pub mod PoolImpl
pub mod Pool
