-- ===== src/Async/PoolImpl/Capacity.antt =====
-- async/detail/pool_impl.hpp: the sizes that a pool reports along a run.
use resource_pool.Prelude.{ℕ, ◌+◌, ◌≤◌, ◌≡◌, sym, subst, some, List, arith}
use resource_pool.Storage
use resource_pool.Storage.{Storage}
use resource_pool.Storage.WellFormed.{WellFormed, write-WellFormed}
use resource_pool.Async.Handlers.{Event}
use resource_pool.Async.PoolImpl
use resource_pool.Async.PoolImpl.{PoolImpl, disable}
use resource_pool.Async.PoolImpl.Disable.{disable_lem}
use resource_pool.Async.PoolImpl.Cells.{
  Sound, get_locked-Sound, get_unlocked-Sound, recycled-Sound, wasted-Sound, invalidate-Sound,
}
use resource_pool.Async.PoolImpl.Opened.{Opened-Initial}
use resource_pool.Async.PoolImpl.Runs.{
  Pending, Run, start, get_answered, get_unanswered, get_resumed, recycled, wasted, timer_ended,
  closed, invalidated, filled,
}

module _ {ℓ} {H T : Type ℓ} where
  disable-Sound :
      (n : ℕ) (p p' : PoolImpl H T) (events : List (Event H))
      → disable p ≡ some (p', events)
      → Sound n p.storage
      → Sound n p'.storage
  disable-Sound n p p' events e a =
      let (left, es, returns, off, nobody, same, all, kept) = disable_lem p in
      let m : PoolImpl H T × List (Event H) = (left, es) in
      let m' : PoolImpl H T × List (Event H) = (p', events) in
      let x : m ≡ m' = cc in subst (λ r. Sound n r.0.storage) x (subst (Sound n) (sym same) a)

  invalidated-Sound :
      (n : ℕ) (p : PoolImpl H T) → Sound n p.storage → Sound n (PoolImpl.invalidate p).storage
  unfolding PoolImpl.invalidate
  invalidated-Sound n p a = invalidate-Sound n p.storage a

  Run-Sound :
      {n : ℕ} {p : PoolImpl H T} {asked : List H} {between : List (Pending H)}
      {events : List (Event H)}
      → Run n p asked between events
      → Sound n p.storage
  Run-Sound {n} (start p o) = (Opened-Initial o).sound
  Run-Sound {n} (get_answered now io h {p} r e) =
      subst (λ x. Sound n x.1.storage) e (get_locked-Sound n p (Run-Sound r) now io h)
  Run-Sound {n} (get_unanswered now io h wait_duration {p} r e) =
      subst (λ x. Sound n x.1.storage) e (get_locked-Sound n p (Run-Sound r) now io h)
  Run-Sound {n} (get_resumed now before after call {p} r e) =
      subst (λ x. Sound n x.0.storage) e
        (get_unlocked-Sound n p (Run-Sound r) now call.io_context call.handler call.wait_duration)
  Run-Sound {n} (recycled now it {p} {p'} {es = es} r e) =
      recycled-Sound n p (Run-Sound r) p' es now it e
  Run-Sound {n} (wasted it {p} {p'} {es = es} r e) = wasted-Sound n p (Run-Sound r) p' es it e
  Run-Sound {n} (timer_ended ec t {p} r e) = Run-Sound r
  Run-Sound {n} (closed {p} {p'} {es = es} r e) = disable-Sound n p p' es e (Run-Sound r)
  Run-Sound {n} (invalidated {p} r) = invalidated-Sound n p (Run-Sound r)
  Run-Sound {n} (filled now c v {p} r used) =
      let a = Run-Sound r in
      record { well_formed = write-WellFormed p.storage c _ a.well_formed used; full = a.full }

  -- In every run of a pool that a constructor has made with `n` cells, in which clients write only to cells
  -- in use, the storage is well-formed, and what the pool reports as available and as used is at most `n`
  -- together.
  pub within_capacity :
      (n : ℕ) (p : PoolImpl H T) (asked : List H) (between : List (Pending H))
      (events : List (Event H))
      → Run n p asked between events
      → WellFormed p.storage × (PoolImpl.available p + PoolImpl.used p ≤ n)
  unfolding PoolImpl.available PoolImpl.used Storage.stats
  within_capacity n p asked between events r =
      let a = Run-Sound r in (a.well_formed, omega (arith, a.well_formed.sizes, a.full))
