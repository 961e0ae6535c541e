-- ===== src/Storage/Invalidation.antt =====
-- storage.hpp: `invalidate` empties the free cells at once, and the cells in use when they come back.
use resource_pool.Prelude.{
  ℕ, ◌+◌, ◌<◌, if◌then◌else◌, ◌≡◌, inl, inr, refl, false, true, Bool-cases, none, List, [], ◌∷◌,
  length, length-append, count, count-append, contains, arith,
}
use resource_pool.Outcome.{ok}
use resource_pool.Idle.{Idle, update, reset_value}
use resource_pool.TimeTraits.{TimePoint}
use resource_pool.Storage.{
  Storage, at, put_wasted, recycle, is_valid, invalidate, stats, mark_used, reset_values,
}
use resource_pool.Storage.WellFormed.{WellFormed}
use resource_pool.Storage.Return.{is_live, is_valid_lem, recycle_lem}

module _ {ℓ} {T : Type ℓ} where
  pub mark_used_lem :
      (l : List ℕ) (cells : ℕ → Idle T) (d : ℕ)
      → mark_used l cells d
        ≡ (if contains d l then record (cells d) { waste_on_recycle = true } else cells d)
  unfolding mark_used
  mark_used_lem [] cells d = refl
  mark_used_lem (c ∷ l) cells d =
      ground
        (arith, mark_used_lem l (update cells c (record (cells c) { waste_on_recycle = true })) d)

  pub reset_values_lem :
      (l : List ℕ) (cells : ℕ → Idle T) (d : ℕ)
      → reset_values l cells d
        ≡ (if contains d l then record (cells d) { value = none } else cells d)
  unfolding reset_values
  reset_values_lem [] cells d = refl
  reset_values_lem (c ∷ l) cells d = ground (arith, reset_values_lem l (reset_value cells c) d)

module _ {ℓ} {T : Type ℓ} (s : Storage T) (w : WellFormed s) where
  -- Each cell: emptied if it was available, marked if it is in use, else as it was.
  pub cells-invalidate :
      (c : ℕ)
      → (invalidate s).cells c ≡ (
          if contains c s.used
          then record (s.cells c) { waste_on_recycle = true }
          else if contains c s.available
          then record (s.cells c) { value = none }
          else s.cells c)
  unfolding invalidate
  cells-invalidate c = ground (
    arith,
    mark_used_lem s.used (reset_values s.available s.cells) c,
    reset_values_lem s.available s.cells c,
    w.owned c,
  )

  pub invalidate-WellFormed : WellFormed (invalidate s)
  invalidate-WellFormed = record {
    owned =
        λ c. unfold invalidate in ground (arith, w.owned c, count-append c s.wasted s.available);
    sizes = unfold invalidate in ground (arith, w.sizes, length-append s.wasted s.available);
    wasted_empty = λ c h.
        let off : contains c s.used ≡ false =
          unfold invalidate in ground (arith, w.owned c, count-append c s.wasted s.available) in
        elim (Bool-cases (contains c s.available)) [
          | inl free ↦ rw (cells-invalidate c, off, free)
          | inr other ↦
              rw (cells-invalidate c, off, other)
                (w.wasted_empty c
                  (unfold invalidate in ground (arith, count-append c s.wasted s.available)))
        ];
    unmarked = λ c h. absurd (unfold invalidate in omega arith);
    within = λ c h. absurd (unfold invalidate in omega arith);
  }

  -- After `invalidate` no resource is available: each cell that was available is wasted and holds nothing,
  -- as all wasted cells do, and each cell in use is invalid and is wasted when it comes back.
  pub invalidate_lem :
      (stats (invalidate s) ≡ record {
        available = 0;
        used = length s.used;
        wasted = length s.wasted + length s.available;
      })
      × ((now : TimePoint) (c : ℕ)
          → 0 < count c s.used
          → (is_valid now (at c) (invalidate s) ≡ ok false)
            × (recycle now (at c) (invalidate s) ≡ ok (put_wasted c (invalidate s))))
      × ((c : ℕ) → count c (invalidate s).wasted ≡ count c s.wasted + count c s.available)
      × ((c : ℕ) → 0 < count c (invalidate s).wasted → ((invalidate s).cells c).value ≡ none)
  invalidate_lem = (
    unfold invalidate stats in ground (arith, length-append s.wasted s.available),
    λ now c held.
        let still : 0 < count c (invalidate s).used = unfold invalidate in held in
        let dead : is_live now c (invalidate s) ≡ false =
          unfold is_live in ground (arith, cells-invalidate c) in
        (
          rw (is_valid_lem (invalidate s) c invalidate-WellFormed still now, dead),
          rw (recycle_lem (invalidate s) c invalidate-WellFormed still now, dead),
        ),
    λ c. unfold invalidate in count-append c s.wasted s.available,
    invalidate-WellFormed.wasted_empty,
  )
