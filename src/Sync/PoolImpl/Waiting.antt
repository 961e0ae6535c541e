-- ===== src/Sync/PoolImpl/Waiting.antt =====
-- sync/detail/pool_impl.hpp: the threads that wait, those that are woken, and the cells that are free.
use native.Mathlib.Nat.{add-zero}
use resource_pool.Prelude.{
  ℕ, suc, ◌+◌, ◌≤◌, ◌<◌, ◌≡◌, refl, ap, subst, ◌∙◌, true, Option, none, [], ◌∷◌, length,
  length-append, arith,
}
use resource_pool.Outcome.{ok, >>=-eq-ok, ok-injective}
use resource_pool.TimeTraits.{TimePoint, epoch}
use resource_pool.Storage
use resource_pool.Storage.{Storage, CellIterator, singular, at, StorageStats}
use resource_pool.Storage.WellFormed.{WellFormed}
use resource_pool.Storage.Return.{
  recycle-held, waste-held, recycle-WellFormed, waste-WellFormed, recycle_back, waste_back,
}
use resource_pool.Storage.Invalidation.{invalidate-WellFormed}
use resource_pool.Sync.PoolImpl
use resource_pool.Sync.PoolImpl.{
  PoolImpl, CondVar, GetResult, Wakeup, CvStatus, no_timeout, timeout, attempt, block, or_wait, get,
  recycle, waste, disable, invalidate, notify_one, notify_all,
}
use resource_pool.Sync.PoolImpl.Opened.{Opened, Opened-Initial}
use resource_pool.Sync.PoolImpl.Steps.{
  run_get, Step, gets, goes_on, wakes, gives_up, times_out, recycles, wastes, disables, invalidates,
  Reach, here, next, late, all_late,
}
use resource_pool.Sync.PoolImpl.Get.{Attempted, off, grants, must_wait, attempt_cases}

module _ {ℓ} {T : Type ℓ} where
  abbrev free : PoolImpl T → ℕ
  free p = length p.storage.available + length p.storage.wasted

  -- The storage is well-formed and has `capacity` cells; while a thread waits, at least as many threads
  -- have been woken and not gone on yet as cells are free, but for `k` cells; a disabled pool lets nobody
  -- wait.
  record Attended (k : ℕ) (p : PoolImpl T) : Type ℓ where
    pub well_formed : WellFormed p.storage
    pub served : 0 < p.has_capacity.waiting → free p ≤ p.has_capacity.notified + k
    pub off : p.is_disabled ≡ true → p.has_capacity.waiting ≡ 0
    pub full : p.storage.nodes ≡ p.capacity

  -- What a round of `get` needs: the thread itself counts as one that has been woken.
  record Ready (k : ℕ) (p : PoolImpl T) : Type ℓ where
    well_formed : WellFormed p.storage
    served : 0 < p.has_capacity.waiting → free p ≤ suc p.has_capacity.notified + k
    off : p.is_disabled ≡ true → p.has_capacity.waiting ≡ 0
    full : p.storage.nodes ≡ p.capacity

  round-Attended :
      (k : ℕ) (now : TimePoint) (p : PoolImpl T) (r : Option GetResult × PoolImpl T)
      → Ready k p
      → Attempted now p r
      → Attended k (or_wait r (λ q. (none, block q))).1
  unfolding block
  round-Attended k now p r a (off dis) = record {
    well_formed = a.well_formed;
    served = λ h. absurd (omega (arith, a.off dis));
    off = a.off;
    full = a.full;
  }
  round-Attended k now p r a (grants c s en g w) = record {
    well_formed = w;
    served = λ h. omega (
      arith,
      a.served h,
      w.sizes,
      a.well_formed.sizes,
      g.settings.1,
      ap (length {A = ℕ}) g.used,
      length-append p.storage.used (c ∷ []),
    );
    off = a.off;
    full = g.settings.1 ∙ a.full;
  }
  round-Attended k now p r a (must_wait en refused) = record {
    well_formed = a.well_formed;
    served = λ h.
        omega
          (arith, ap (length {A = ℕ}) refused.no_available, ap (length {A = ℕ}) refused.no_wasted);
    off = λ dis. cc;
    full = a.full;
  }

  run_get-Attended :
      (k : ℕ) (now : TimePoint) (p : PoolImpl T) → Ready k p → Attended k (run_get now p)
  unfolding run_get
  run_get-Attended k now p a =
      round-Attended k now p (attempt now p) a (attempt_cases now p a.well_formed)

  -- A cell has come back, and one thread is woken.
  returned-Attended :
      (k : ℕ) (p : PoolImpl T) (s : Storage T)
      → Attended k p
      → WellFormed s
      → s.nodes ≡ p.storage.nodes
      → length p.storage.used ≡ suc (length s.used)
      → Attended k (record p { storage = s; has_capacity = notify_one p.has_capacity })
  unfolding notify_one
  returned-Attended k p s a w same fewer = record {
    well_formed = w;
    served = λ h. ground (arith, a.served, w.sizes, a.well_formed.sizes);
    off = λ dis. ground (arith, a.off dis);
    full = same ∙ a.full;
  }

  recycle-Attended :
      (k : ℕ) (now : TimePoint) (it : CellIterator) (p q : PoolImpl T)
      → recycle now it p ≡ ok q
      → Attended k p
      → Attended k q
  unfolding recycle
  recycle-Attended k now singular p q e a = unfold Storage.recycle in cc
  recycle-Attended k now (at c) p q e a =
      let (s, es, eq) = >>=-eq-ok (Storage.recycle now (at c) p.storage) _ e in
      let w = recycle-WellFormed now p.storage s (at c) es a.well_formed in
      let (nodes, fewer) =
        recycle_back p.storage c a.well_formed (recycle-held now p.storage s c es) now s es in
      subst (Attended k) (ok-injective eq) (returned-Attended k p s a w nodes fewer)

  waste-Attended :
      (k : ℕ) (it : CellIterator) (p q : PoolImpl T)
      → waste it p ≡ ok q
      → Attended k p
      → Attended k q
  unfolding waste
  waste-Attended k singular p q e a = unfold Storage.waste in cc
  waste-Attended k (at c) p q e a =
      let (s, es, eq) = >>=-eq-ok (Storage.waste (at c) p.storage) _ e in
      let w = waste-WellFormed epoch p.storage s (at c) es a.well_formed in
      let (nodes, fewer) =
        waste_back p.storage c a.well_formed (waste-held epoch p.storage s c es) epoch s es in
      subst (Attended k) (ok-injective eq) (returned-Attended k p s a w nodes fewer)

  invalidate-Attended : (k : ℕ) (p : PoolImpl T) → Attended k p → Attended k (invalidate p)
  unfolding invalidate Storage.invalidate
  invalidate-Attended k p a = record {
    well_formed = invalidate-WellFormed p.storage a.well_formed;
    served = λ h. omega (arith, a.served h, length-append p.storage.wasted p.storage.available);
    off = a.off;
    full = a.full;
  }

  -- Every step of a pool and its threads keeps this: the storage is well-formed and has as many cells
  -- as the pool's capacity; while a thread waits for a cell, at least as many threads have been woken
  -- and have not gone on yet as cells are free, but for as many cells as notified threads have been told that
  -- their time is up; nobody waits on a disabled pool.
  Step-Attended :
      (k : ℕ) {p q : PoolImpl T} (st : Step p q) → Attended k p → Attended (k + late st) q
  unfolding late
  Step-Attended k {p} (gets now) a = rw add-zero (
      run_get-Attended k now p (record {
        well_formed = a.well_formed;
        served = λ h. omega (arith, a.served h);
        off = a.off;
        full = a.full;
      }))
  Step-Attended k {p} (goes_on now n e) a = rw add-zero (
      run_get-Attended k now _ (record {
        well_formed = a.well_formed;
        served = λ h. omega (arith, a.served h);
        off = a.off;
        full = a.full;
      }))
  Step-Attended k (wakes n e) a = record {
    well_formed = a.well_formed;
    served = λ h. omega (arith, a.served (omega arith));
    off = λ dis. omega (arith, a.off dis);
    full = a.full;
  }
  Step-Attended k (gives_up n e) a = record {
    well_formed = a.well_formed;
    served = λ h. omega (arith, a.served (omega arith));
    off = λ dis. omega (arith, a.off dis);
    full = a.full;
  }
  Step-Attended k {p} (times_out n e) a = record {
    well_formed = a.well_formed;
    served = λ h. omega (arith, a.served h);
    off = a.off;
    full = a.full;
  }
  Step-Attended k {p} (recycles now it q e) a = rw add-zero (recycle-Attended k now it p q e a)
  Step-Attended k {p} (wastes it q e) a = rw add-zero (waste-Attended k it p q e a)
  Step-Attended k {p} disables a =
      unfold disable notify_all in
      record {
        well_formed = a.well_formed;
        served = λ h. absurd (omega arith);
        off = λ dis. refl;
        full = a.full;
      }
  Step-Attended k {p} invalidates a = rw add-zero (invalidate-Attended k p a)

  Reach-Attended : {p q : PoolImpl T} (r : Reach p q) → Attended 0 p → Attended (all_late r) q
  unfolding all_late
  Reach-Attended here a = a
  Reach-Attended (next r st) a = Step-Attended (all_late r) st (Reach-Attended r a)

  -- From a pool that one of its constructors has made, every sequence of calls and wakeups keeps the
  -- storage well-formed, with as many cells as the capacity, and the reported size within it. While a thread waits, the free cells are at most
  -- as many as the threads that are woken and have not gone on yet and those threads together that were
  -- notified but were told by `wait_for` that their time was up. Nobody waits on a disabled pool.
  pub reachable-Attended :
      (p q : PoolImpl T)
      → Opened p
      → (r : Reach p q)
      → WellFormed q.storage
        × (q.storage.nodes ≡ q.capacity)
        × (PoolImpl.size q ≤ q.capacity)
        × (0 < q.has_capacity.waiting
            → length q.storage.available + length q.storage.wasted
              ≤ q.has_capacity.notified + all_late r)
        × (q.is_disabled ≡ true → q.has_capacity.waiting ≡ 0)
  unfolding PoolImpl.size Storage.stats
  reachable-Attended p q o r =
      let first = Opened-Initial o in
      let a = Reach-Attended r (record {
        well_formed = first.well_formed;
        served = λ h. absurd (omega (arith, h, first.nobody));
        off = λ dis. first.nobody;
        full = first.full;
      }) in
      (a.well_formed, a.full, omega (arith, a.full, a.well_formed.sizes), a.served, a.off)
