-- ===== src/Async/PoolImpl/Cells.antt =====
-- async/detail/pool_impl.hpp: the storage under every step of a pool.
use resource_pool.Prelude.{ℕ, ◌≡◌, sym, inl, inr, subst, ◌∙◌, Bool, List, arith}
use resource_pool.Outcome.{ok, >>=-eq-ok, ok-injective}
use resource_pool.Idle.{reset_value}
use resource_pool.TimeTraits.{TimePoint, Duration}
use resource_pool.Storage
use resource_pool.Storage.{Storage, CellIterator, at, singular, deref}
use resource_pool.Storage.WellFormed.{WellFormed}
use resource_pool.Storage.Invalidation.{invalidate-WellFormed}
use resource_pool.Prelude.Int.{pos}
use resource_pool.Storage.Return.{
  recycle-WellFormed, waste-WellFormed, recycle-held, waste-held, recycle_back, waste_back,
}
use resource_pool.Async.Handlers.{Event}
use resource_pool.Async.PoolImpl.Comeback.{
  Comeback, stored, served, recycle-Comeback, waste-Comeback,
}
use resource_pool.Async.PoolImpl.Cases.{
  Locked, off, granted, refused, get_locked-Locked, Unlocked, expired, queued, overflow,
  get_unlocked-Unlocked,
}
use resource_pool.Async.PoolImpl.{PoolImpl, reset_cell, get_locked, get_unlocked, recycle, waste}

-- A storage of `n` cells.
pub record Sound {ℓ} {T : Type ℓ} (n : ℕ) (s : Storage T) : Type ℓ where
  pub well_formed : WellFormed s
  pub full : s.nodes ≡ n

module _ {ℓ} {T : Type ℓ} (n : ℕ) (s : Storage T) (a : Sound n s) where
  reset-Sound : (c : ℕ) → Sound n (record s { cells = reset_value s.cells c })
  reset-Sound c = record {
    well_formed = record {
      owned = a.well_formed.owned;
      sizes = a.well_formed.sizes;
      wasted_empty = λ d h. ground (arith, a.well_formed.wasted_empty d h);
      unmarked = λ d h. ground (arith, a.well_formed.unmarked d h);
      within = λ d h. ground (arith, a.well_formed.within d h);
    };
    full = a.full;
  }

  reset_cell-Sound : (it : CellIterator) (s' : Storage T) → reset_cell it s ≡ ok s' → Sound n s'
  unfolding reset_cell
  reset_cell-Sound it s' e =
      let (c, ec, r) = >>=-eq-ok (deref it s) _ e in
      subst (Sound n) (ok-injective r) (reset-Sound c)

  recycle-Sound :
      (now : TimePoint) (it : CellIterator) (s' : Storage T)
      → Storage.recycle now it s ≡ ok s'
      → Sound n s'
  unfolding Storage.recycle
  recycle-Sound now it s' e = record {
    well_formed = recycle-WellFormed now s s' it e a.well_formed;
    full = same it e ∙ a.full;
  }
    where
      same : (it : CellIterator) → Storage.recycle now it s ≡ ok s' → s'.nodes ≡ s.nodes
      same singular h = cc
      same (at c) h = (recycle_back s c a.well_formed (recycle-held now s s' c h) now s' h).0

  waste-Sound :
      (now : TimePoint) (it : CellIterator) (s' : Storage T)
      → Storage.waste it s ≡ ok s'
      → Sound n s'
  unfolding Storage.waste
  waste-Sound now it s' e = record {
    well_formed = waste-WellFormed now s s' it e a.well_formed;
    full = same it e ∙ a.full;
  }
    where
      same : (it : CellIterator) → Storage.waste it s ≡ ok s' → s'.nodes ≡ s.nodes
      same singular h = cc
      same (at c) h = (waste_back s c a.well_formed (waste-held now s s' c h) now s' h).0

  pub invalidate-Sound : Sound n (Storage.invalidate s)
  invalidate-Sound = record {
    well_formed = invalidate-WellFormed s a.well_formed;
    full = unfold Storage.invalidate in a.full;
  }

module _ {ℓ} {H T : Type ℓ} (n : ℕ) (p : PoolImpl H T) (a : Sound n p.storage) where
  Locked-Sound :
      (now : TimePoint) (io : ℕ) (h : H) {r : Bool × PoolImpl H T × List (Event H)}
      → Locked p now io h r
      → Sound n r.1.storage
  Locked-Sound now io h (off dis) = a
  Locked-Sound now io h (granted c s on g w) = record {
    well_formed = w;
    full = g.settings.1 ∙ a.full;
  }
  Locked-Sound now io h (refused on r) = a

  pub get_locked-Sound :
      (now : TimePoint) (io : ℕ) (h : H) → Sound n (get_locked now io h p).1.storage
  get_locked-Sound now io h = Locked-Sound now io h (get_locked-Locked p now io h a.well_formed)

  Unlocked-Sound :
      (now : TimePoint) (io : ℕ) (h : H) (wait_duration : Duration)
      {r : PoolImpl H T × List (Event H)}
      → Unlocked p now io h wait_duration r
      → Sound n r.0.storage
  Unlocked-Sound now io h wait_duration (expired z) = a
  Unlocked-Sound now io h wait_duration (queued z room) = a
  Unlocked-Sound now io h wait_duration (overflow z full) = a

  pub get_unlocked-Sound :
      (now : TimePoint) (io : ℕ) (h : H) (wait_duration : Duration)
      → Sound n (get_unlocked now io h wait_duration p).0.storage
  get_unlocked-Sound now io h wait_duration =
      Unlocked-Sound now io h wait_duration (get_unlocked-Unlocked p now io h wait_duration)

  Comeback-Sound :
      (it : CellIterator) (taken : Storage T → Type ℓ) {r : PoolImpl H T × List (Event H)}
      → ((s : Storage T) → taken s → Sound n s)
      → Comeback p it taken r
      → Sound n r.0.storage
  Comeback-Sound it taken back (stored s nobody t) = back s t
  Comeback-Sound it taken back (served value s first (inl same)) = subst (Sound n) (sym same) a
  Comeback-Sound it taken back (served value s first (inr reset)) =
      reset_cell-Sound n p.storage a it s reset

  module _ (p' : PoolImpl H T) (events : List (Event H)) where
    pub recycled-Sound :
        (now : TimePoint) (it : CellIterator)
        → recycle now it p ≡ ok (p', events)
        → Sound n p'.storage
    recycled-Sound now it e =
        Comeback-Sound it _ (recycle-Sound n p.storage a now it)
          (recycle-Comeback p it p' events now e)

    pub wasted-Sound : (it : CellIterator) → waste it p ≡ ok (p', events) → Sound n p'.storage
    wasted-Sound it e =
        Comeback-Sound it _ (waste-Sound n p.storage a (pos 0) it) (waste-Comeback p it p' events e)
