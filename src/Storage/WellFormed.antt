-- ===== src/Storage/WellFormed.antt =====
-- storage.hpp: the invariant of the three lists and the cells, kept by every step that moves a node.
use resource_pool.Prelude.{
  ℕ, ◌+◌, ◌<◌, ltb, if◌then◌else◌, ◌≡◌, ap, false, none, List, [], ◌∷◌, length, length-append,
  count, count-append, count-erase, length-erase, arith,
}
use resource_pool.Prelude.Int.{◌≤ℤ◌}
use resource_pool.Idle.{Idle, update}
use resource_pool.TimeTraits.{TimePoint}
use resource_pool.Storage.{
  Storage, life_end, put_wasted, put_available, expire, take_available, take_wasted,
}

-- Every node is in exactly one list; a wasted cell is empty; an available cell is not marked, and
-- is dropped no later than its life ends.
pub record WellFormed {ℓ} {T : Type ℓ} (s : Storage T) : Type ℓ where
  pub owned :
      (c : ℕ)
      → count c s.available + count c s.used + count c s.wasted ≡ (if ltb c s.nodes then 1 else 0)
  pub sizes : length s.available + length s.used + length s.wasted ≡ s.nodes
  pub wasted_empty : (c : ℕ) → 0 < count c s.wasted → (s.cells c).value ≡ none
  pub unmarked : (c : ℕ) → 0 < count c s.available → (s.cells c).waste_on_recycle ≡ false
  pub within : (c : ℕ) → 0 < count c s.available → (s.cells c).drop_time ≤ℤ life_end s c

module _ {ℓ} {T : Type ℓ} (s : Storage T) (c : ℕ) (rest : List ℕ) (w : WellFormed s) where
  pub expire-WellFormed : s.available ≡ c ∷ rest → WellFormed (expire c rest s)
  unfolding expire
  expire-WellFormed e = record {
    owned = λ d. ground (arith, w.owned d, ap (count d) e, count-append d s.wasted (c ∷ []));
    sizes = ground (arith, w.sizes, ap (length {A = ℕ}) e, length-append s.wasted (c ∷ []));
    wasted_empty = λ d h. ground (arith, w.wasted_empty d, count-append d s.wasted (c ∷ []));
    unmarked = λ d h. ground (arith, w.unmarked d, ap (count d) e);
    within = λ d h. ground (arith, w.within d, ap (count d) e);
  }

  pub take_available-WellFormed : s.available ≡ c ∷ rest → WellFormed (take_available c rest s)
  unfolding take_available
  take_available-WellFormed e = record {
    owned = λ d. ground (arith, w.owned d, ap (count d) e, count-append d s.used (c ∷ []));
    sizes = ground (arith, w.sizes, ap (length {A = ℕ}) e, length-append s.used (c ∷ []));
    wasted_empty = w.wasted_empty;
    unmarked = λ d h. ground (arith, w.unmarked d, ap (count d) e);
    within = λ d h. ground (arith, w.within d, ap (count d) e);
  }

  pub take_wasted-WellFormed : s.wasted ≡ c ∷ rest → WellFormed (take_wasted c rest s)
  unfolding take_wasted
  take_wasted-WellFormed e = record {
    owned = λ d. ground (arith, w.owned d, ap (count d) e, count-append d s.used (c ∷ []));
    sizes = ground (arith, w.sizes, ap (length {A = ℕ}) e, length-append s.used (c ∷ []));
    wasted_empty = λ d h. ground (arith, w.wasted_empty d, ap (count d) e);
    unmarked = λ d h. ground (arith, w.unmarked d);
    within = λ d h. ground (arith, w.within d);
  }

module _ {ℓ} {T : Type ℓ} (s : Storage T) (c : ℕ) (w : WellFormed s)
    (held : 0 < count c s.used) where
  pub put_wasted-WellFormed : WellFormed (put_wasted c s)
  unfolding put_wasted
  put_wasted-WellFormed = record {
    owned =
        λ d. ground (arith, w.owned d, count-erase d c s.used, count-append d s.wasted (c ∷ []));
    sizes = ground (arith, w.sizes, length-erase c s.used, length-append s.wasted (c ∷ []));
    wasted_empty = λ d h. ground (arith, w.wasted_empty d, count-append d s.wasted (c ∷ []));
    unmarked = λ d h. ground (arith, w.unmarked d);
    within = λ d h. ground (arith, w.within d);
  }

  pub put_available-WellFormed :
      (now : TimePoint) → (s.cells c).waste_on_recycle ≡ false → WellFormed (put_available now c s)
  unfolding put_available
  put_available-WellFormed now unmarked = record {
    owned =
        λ d. ground (arith, w.owned d, count-erase d c s.used, count-append d s.available (c ∷ []));
    sizes = ground (arith, w.sizes, length-erase c s.used, length-append s.available (c ∷ []));
    wasted_empty = λ d h. ground (arith, w.wasted_empty d, w.owned d);
    unmarked = λ d h. ground (arith, w.unmarked d, count-append d s.available (c ∷ []));
    within = λ d h. ground (arith, w.within d, count-append d s.available (c ∷ []));
  }

module _ {ℓ} {T : Type ℓ} where
  -- A write to a cell in use breaks nothing.
  pub write-WellFormed :
      (s : Storage T) (c : ℕ) (x : Idle T)
      → WellFormed s
      → 0 < count c s.used
      → WellFormed (record s { cells = update s.cells c x })
  write-WellFormed s c x w held = record {
    owned = w.owned;
    sizes = w.sizes;
    wasted_empty = λ d h. ground (arith, w.wasted_empty d, w.owned d);
    unmarked = λ d h. ground (arith, w.unmarked d, w.owned d);
    within = λ d h. ground (arith, w.within d, w.owned d);
  }
