-- ===== src/Sync/PoolImpl/Steps.antt =====
-- sync/detail/pool_impl.hpp: the pool with the threads that wait for a cell, as a step relation.
use resource_pool.Prelude.{ℕ, suc, ◌+◌, ◌≡◌, []}
use resource_pool.Outcome.{ok}
use resource_pool.TimeTraits.{TimePoint}
use resource_pool.Storage.{CellIterator}
use resource_pool.Sync.PoolImpl.{PoolImpl, get, recycle, waste, disable, invalidate}

module _ {ℓ} {T : Type ℓ} where
  -- A thread holds the mutex in `get` until it has a result or waits.
  unfoldable pub run_get : TimePoint → PoolImpl T → PoolImpl T
  unfolding get
  run_get now p = (get now [] p).1

  abbrev pub with_cv : PoolImpl T → ℕ → ℕ → PoolImpl T
  with_cv p waiting notified = record p {
    has_capacity = record { waiting = waiting; notified = notified };
  }

  -- A thread calls `get`, or goes on in it after a notification; a waiting thread wakes up for no
  -- reason, or its wait runs out and its call returns; a thread that was notified is told by `wait_for`
  -- that its time is up all the same, as it may be once the time has come, and its call returns; a thread
  -- calls another function of the pool.
  pub data Step (p : PoolImpl T) : PoolImpl T → Type ℓ where
    gets : (now : TimePoint) → Step p (run_get now p)
    goes_on :
        (now : TimePoint) (n : ℕ)
        → p.has_capacity.notified ≡ suc n
        → Step p (run_get now (with_cv p p.has_capacity.waiting n))
    wakes :
        (n : ℕ)
        → p.has_capacity.waiting ≡ suc n
        → Step p (with_cv p n (suc p.has_capacity.notified))
    gives_up :
        (n : ℕ) → p.has_capacity.waiting ≡ suc n → Step p (with_cv p n p.has_capacity.notified)
    times_out :
        (n : ℕ) → p.has_capacity.notified ≡ suc n → Step p (with_cv p p.has_capacity.waiting n)
    recycles :
        (now : TimePoint) (it : CellIterator) (q : PoolImpl T) → recycle now it p ≡ ok q → Step p q
    wastes : (it : CellIterator) (q : PoolImpl T) → waste it p ≡ ok q → Step p q
    disables : Step p (disable p)
    invalidates : Step p (invalidate p)

  pub data Reach (p : PoolImpl T) : PoolImpl T → Type ℓ where
    here : Reach p p
    next : {q r : PoolImpl T} → Reach p q → Step q r → Reach p r

  -- The notified threads that were told that their time is up.
  unfoldable pub late : {p q : PoolImpl T} → Step p q → ℕ
  late (gets now) = 0
  late (goes_on now n e) = 0
  late (wakes n e) = 0
  late (gives_up n e) = 0
  late (times_out n e) = 1
  late (recycles now it q e) = 0
  late (wastes it q e) = 0
  late disables = 0
  late invalidates = 0

  unfoldable pub all_late : {p q : PoolImpl T} → Reach p q → ℕ
  unfolding late
  all_late here = 0
  all_late (next r st) = all_late r + late st
