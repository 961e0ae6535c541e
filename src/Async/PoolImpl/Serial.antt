-- ===== src/Async/PoolImpl/Serial.antt =====
-- async/detail/pool_impl.hpp: runs in which no other thread comes between the two steps of `get`.
use resource_pool.Prelude.{
  ap, ℕ, ◌<◌, ◌≡◌, subst, inl, inr, Bool-cases, false, some, List, length, count, arith,
}
use resource_pool.Outcome.{ok}
use resource_pool.Error.{ErrorCode}
use resource_pool.TimeTraits.{TimePoint, Duration}
use resource_pool.Storage
use resource_pool.Storage.{Storage, at}
use resource_pool.Async.Handlers.{Event}
use resource_pool.Async.Queue
use resource_pool.Async.Queue.{Queue, ExpiringRequest}
use resource_pool.Async.Queue.Refinement.{view}
use resource_pool.Async.PoolImpl
use resource_pool.Async.PoolImpl.{
  PoolImpl, with_capacity, get_locked, get_unlocked, recycle, waste, disable, invalidate,
}
use resource_pool.Async.Queue.{ExpiringRequest}
use resource_pool.Async.PoolImpl.Opened.{Opened, Opened-Initial}
use resource_pool.Async.PoolImpl.Busy.{
  Busy, get-Busy, recycle-Busy, waste-Busy, cancel-Busy, disable-Busy, invalidate-Busy,
}

-- A pool of `n` cells after operations that came one after the other; clients return cells in use.
pub data Serial {ℓ} {H T : Type ℓ} (n : ℕ) : PoolImpl H T → Type ℓ where
  opens : (p : PoolImpl H T) → Opened n p → Serial n p
  gets :
      (now later : TimePoint) (io : ℕ) (h : H) (wait_duration : Duration) {p p' : PoolImpl H T}
      {es : List (Event H)}
      → Serial n p
      → PoolImpl.get now later io h wait_duration p ≡ (p', es)
      → Serial n p'
  recycles :
      (now : TimePoint) (c : ℕ) {p p' : PoolImpl H T} {es : List (Event H)}
      → Serial n p
      → 0 < count c p.storage.used
      → recycle now (at c) p ≡ ok (p', es)
      → Serial n p'
  wastes :
      (c : ℕ) {p p' : PoolImpl H T} {es : List (Event H)}
      → Serial n p
      → 0 < count c p.storage.used
      → waste (at c) p ≡ ok (p', es)
      → Serial n p'
  times_out :
      (ec : ErrorCode) (t : TimePoint) {p : PoolImpl H T} {q : Queue H} {es : List (Event H)}
      → Serial n p
      → Queue.cancel ec t p.callbacks ≡ (q, es)
      → Serial n (record p { callbacks = q })
  closes :
      {p p' : PoolImpl H T} {es : List (Event H)}
      → Serial n p
      → disable p ≡ some (p', es)
      → Serial n p'
  invalidates : {p : PoolImpl H T} → Serial n p → Serial n (invalidate p)

module _ {ℓ} {H T : Type ℓ} where
  pub Serial-Busy : {n : ℕ} {p : PoolImpl H T} → Serial n p → Busy n p
  Serial-Busy {n} (opens p o) =
      let a = Opened-Initial o in
      record {
        sound = a.sound;
        consistent = a.consistent;
        busy = λ some_wait.
            absurd (omega (arith, some_wait, ap (length {A = ExpiringRequest H}) a.nobody));
        closed = λ _. ap length a.nobody;
      }
  Serial-Busy {n} (gets now later io h wait_duration {p} k e) =
      subst (λ x. Busy n x.0) e (get-Busy n p (Serial-Busy k) now later io h wait_duration)
  Serial-Busy {n} (recycles now c {p} {p'} {es} k held e) =
      recycle-Busy n p (Serial-Busy k) p' es now c held e
  Serial-Busy {n} (wastes c {p} {p'} {es} k held e) = waste-Busy n p (Serial-Busy k) p' es c held e
  Serial-Busy {n} (times_out ec t {p} k e) =
      subst (λ x. Busy n (record p { callbacks = x.0 })) e (cancel-Busy n p (Serial-Busy k) ec t)
  Serial-Busy {n} (closes {p} {p'} {es} k e) = disable-Busy n p (Serial-Busy k) p' es e
  Serial-Busy {n} (invalidates {p} k) = invalidate-Busy n p (Serial-Busy k)

  -- As long as no other thread comes between the two steps of `get`, a request waits on a pool of `n`
  -- cells only while the pool is not disabled and reports every cell as used and none as available.
  pub work_conserving :
      (n : ℕ) (p : PoolImpl H T)
      → Serial n p
      → 0 < length (view p.callbacks)
      → (p.is_disabled ≡ false) × (PoolImpl.used p ≡ n) × (PoolImpl.available p ≡ 0)
  unfolding PoolImpl.used PoolImpl.available Storage.stats
  work_conserving n p k some_wait =
      let a = Serial-Busy k in
      let all = a.busy some_wait in
      (
        elim (Bool-cases p.is_disabled) [
          | inl dis ↦ absurd (omega (arith, a.closed dis, some_wait))
          | inr on ↦ on
        ],
        omega (arith, all, a.sound.well_formed.sizes, a.sound.full),
        omega (arith, all, a.sound.well_formed.sizes, a.sound.full),
      )
