-- ===== src/Sync/PoolImpl/Exclusive.antt =====
-- sync/detail/pool_impl.hpp: no cell is in the hands of two clients, whatever threads do.
use resource_pool.Prelude.{
  ℕ, ◌+◌, ◌<◌, ◌≤◌, ◌≡◌, refl, sym, subst, ◌∙◌, if◌then◌else◌, Option, none, List, [], ◌∷◌, ◌++◌,
  length, count, arith,
}
use mathlib.Core.List.{append-nil}
use resource_pool.Outcome.{ok, ok-injective}
use resource_pool.TimeTraits.{TimePoint}
use resource_pool.Storage
use resource_pool.Storage.{Storage, CellIterator, at, singular, put_wasted, put_available}
use resource_pool.Storage.Access.{refill}
use resource_pool.Storage.WellFormed.{WellFormed, write-WellFormed, put_wasted-WellFormed}
use resource_pool.Storage.Invalidation.{invalidate-WellFormed}
use resource_pool.Storage.Held.{
  Held, nobody-Held, same-Held, lent-Held, back-Held, held_in_use, Held-once,
}
use resource_pool.Storage.Return.{
  is_live, waste_lem, recycle_lem, returned_lem, returned-WellFormed,
}
use resource_pool.Sync.PoolImpl
use resource_pool.Sync.PoolImpl.{
  PoolImpl, GetResult, attempt, block, or_wait, get, recycle, waste, disable, invalidate,
  notify_one,
}
use resource_pool.Sync.PoolImpl.Opened.{Opened-Initial}
use resource_pool.Sync.PoolImpl.Get.{Attempted, off, grants, must_wait, attempt_cases}
use resource_pool.Sync.PoolImpl.Steps.{with_cv}
use resource_pool.Sync.PoolImpl.Clients.{
  given, Clients, opens, gets, goes_on, wakes, gives_up, times_out, recycles, wastes, fills,
  disables, invalidates,
}

-- Exactly the cells in use are held, each once.
record Owned {ℓ} {T : Type ℓ} (p : PoolImpl T) (held : List ℕ) : Type ℓ where
  well_formed : WellFormed p.storage
  full : p.storage.nodes ≡ p.capacity
  holds : Held held p.storage

module _ {ℓ} {T : Type ℓ} (p : PoolImpl T) (held : List ℕ) (a : Owned p held) where
  round-Owned :
      (now : TimePoint) {r : Option GetResult × PoolImpl T}
      → Attempted now p r
      → let q = or_wait r (λ q. (none, block q)) in Owned q.1 (held ++ given q.0)
  unfolding block
  round-Owned now (off dis) = rw (append-nil held) a
  round-Owned now (grants c s en g w) = record {
    well_formed = w;
    full = g.settings.1 ∙ a.full;
    holds = lent-Held p.storage s held c g.used a.holds;
  }
  round-Owned now (must_wait en refused) =
      rw (append-nil held) (record { well_formed = a.well_formed; full = a.full; holds = a.holds })

  get-Owned : (now : TimePoint) → Owned (get now [] p).1 (held ++ given (get now [] p).0)
  unfolding get
  get-Owned now = round-Owned now (attempt_cases now p a.well_formed)

  with_cv-Owned : (waiting notified : ℕ) → Owned (with_cv p waiting notified) held
  with_cv-Owned waiting notified = record {
    well_formed = a.well_formed;
    full = a.full;
    holds = a.holds;
  }

  refill-Owned :
      (now : TimePoint) (c : ℕ) (v : T)
      → 0 < count c held
      → Owned (record p { storage = refill now c v p.storage }) held
  refill-Owned now c v has = record {
    well_formed = write-WellFormed p.storage c _ a.well_formed (omega (arith, a.holds.own c));
    full = a.full;
    holds = same-Held p.storage _ held refl a.holds;
  }

  disable-Owned : Owned (disable p) held
  unfolding disable
  disable-Owned = record { well_formed = a.well_formed; full = a.full; holds = a.holds }

  invalidate-Owned : Owned (invalidate p) held
  unfolding invalidate
  invalidate-Owned = record {
    well_formed = invalidate-WellFormed p.storage a.well_formed;
    full = unfold Storage.invalidate in a.full;
    holds = same-Held p.storage _ held (unfold Storage.invalidate in refl) a.holds;
  }

-- A cell in use comes back.
module _ {ℓ} {T : Type ℓ} (p : PoolImpl T) (w : WellFormed p.storage) (c : ℕ)
    (used : 0 < count c p.storage.used) where
  abbrev with_storage : Storage T → PoolImpl T
  with_storage s = record p { storage = s; has_capacity = notify_one p.has_capacity }

  recycled :
      (now : TimePoint)
      → recycle now (at c) p
        ≡ ok (
            with_storage (
              if is_live now c p.storage
              then put_available now c p.storage
              else put_wasted c p.storage))
  recycled now = unfold recycle in rw (recycle_lem p.storage c w used now)

  wasted : waste (at c) p ≡ ok (with_storage (put_wasted c p.storage))
  wasted = unfold waste in rw (waste_lem p.storage c w used)

module _ {ℓ} {T : Type ℓ} (p : PoolImpl T) (c : ℕ) (before after : List ℕ)
    (a : Owned p (before ++ c ∷ after)) where
  used : 0 < count c p.storage.used
  used = held_in_use p.storage c before after a.holds

  recycle-Owned :
      (now : TimePoint) (q : PoolImpl T) → recycle now (at c) p ≡ ok q → Owned q (before ++ after)
  recycle-Owned now q e =
      let (less, nodes) = returned_lem p.storage c a.well_formed used now in
      subst (λ r. Owned r (before ++ after))
        (ok-injective (sym (recycled p a.well_formed c used now) ∙ e))
        (record {
          well_formed = returned-WellFormed p.storage c a.well_formed used now;
          full = nodes ∙ a.full;
          holds = back-Held p.storage c before after a.holds _ less;
        })

  waste-Owned : (q : PoolImpl T) → waste (at c) p ≡ ok q → Owned q (before ++ after)
  waste-Owned q e =
      subst (λ r. Owned r (before ++ after))
        (ok-injective (sym (wasted p a.well_formed c used) ∙ e))
        (record {
          well_formed = put_wasted-WellFormed p.storage c a.well_formed used;
          full = unfold put_wasted in a.full;
          holds = back-Held p.storage c before after a.holds _ (unfold put_wasted in refl);
        })

module _ {ℓ} {T : Type ℓ} where
  Clients-Owned : {p : PoolImpl T} {held : List ℕ} → Clients p held → Owned p held
  Clients-Owned (opens p o) =
      let first = Opened-Initial o in
      record {
        well_formed = first.well_formed;
        full = first.full;
        holds = nobody-Held p.storage first.none_used;
      }
  Clients-Owned (gets now {p} {held = held} k e) =
      subst (λ r. Owned r.1 (held ++ given r.0)) e (get-Owned p held (Clients-Owned k) now)
  Clients-Owned (goes_on now n {p} {held = held} k less e) =
      subst (λ r. Owned r.1 (held ++ given r.0)) e
        (get-Owned _ held (with_cv-Owned p held (Clients-Owned k) p.has_capacity.waiting n) now)
  Clients-Owned (wakes n {p} {held} k e) = with_cv-Owned p held (Clients-Owned k) n _
  Clients-Owned (gives_up n {p} {held} k e) = with_cv-Owned p held (Clients-Owned k) n _
  Clients-Owned (times_out n {p} {held} k e) =
      with_cv-Owned p held (Clients-Owned k) p.has_capacity.waiting n
  Clients-Owned (recycles now c before after {p} {q} k e) =
      recycle-Owned p c before after (Clients-Owned k) now q e
  Clients-Owned (wastes c before after {p} {q} k e) =
      waste-Owned p c before after (Clients-Owned k) q e
  Clients-Owned (fills now c v {p} {held} k has) = refill-Owned p held (Clients-Owned k) now c v has
  Clients-Owned (disables {p} {held} k) = disable-Owned p held (Clients-Owned k)
  Clients-Owned (invalidates {p} {held} k) = invalidate-Owned p held (Clients-Owned k)

  -- Whatever threads do with a pool that one of its constructors has made, as long as clients give back and
  -- fill only cells that they hold: the cells that `get` has returned and that have not been given back
  -- are exactly those in use, each is held once and is not free, they are as many as `used` reports, and
  -- no more than the capacity; and each of them can be recycled and wasted, neither of which is
  -- undefined.
  pub one_holder :
      (p : PoolImpl T) (held : List ℕ)
      → Clients p held
      → ((c : ℕ)
          → (count c held ≡ count c p.storage.used)
            × (count c held + count c p.storage.available + count c p.storage.wasted ≤ 1))
        × (length held ≡ PoolImpl.used p)
        × (length held ≤ p.capacity)
        × ((c : ℕ) (now : TimePoint)
            → 0 < count c held
            → (q : PoolImpl T) × (r : PoolImpl T) × (recycle now (at c) p ≡ ok q)
              × (waste (at c) p ≡ ok r))
  unfolding PoolImpl.used Storage.stats
  one_holder p held k =
      let a = Clients-Owned k in
      (
        Held-once held p.storage a.holds a.well_formed,
        a.holds.as_many,
        omega (arith, a.holds.as_many, a.well_formed.sizes, a.full),
        λ c now has.
            let in_use : 0 < count c p.storage.used = omega (arith, a.holds.own c) in
            (_, _, recycled p a.well_formed c in_use now, wasted p a.well_formed c in_use),
      )
