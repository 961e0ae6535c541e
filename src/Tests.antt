-- ===== src/Tests.antt =====
-- Runs on small inputs, and the theorems at inputs that meet their hypotheses.
mod TimeTraits
mod Storage
mod Handle
mod Sync
mod Requests
mod Runs
mod Promises
mod Async
mod Examples
mod Loops
