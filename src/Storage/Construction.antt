-- ===== src/Storage/Construction.antt =====
-- storage.hpp: each of the three constructors makes a well-formed storage.
pub mod Contents
use resource_pool.Prelude.{
  ℕ, zero, suc, ◌+◌, ◌-◌, ◌<◌, ltb, if◌then◌else◌, ◌≡◌, refl, ap, ◌∙◌, some, List, [], ◌∷◌, ◌++◌,
  length, get_elem?, length-append, count-append, arith,
}
use resource_pool.Prelude.Int.{◌≤ℤ◌, min_ℤ}
use native.Mathlib.Nat.{add-zero, zero-add, add-suc, suc-add}
use resource_pool.Idle.{idle_cell, update}
use resource_pool.TimeTraits.{TimePoint, Duration, add}
use resource_pool.Storage.{
  Storage, stats, no_cells, append_wasted, with_capacity, generate, with_generator, append_range,
  with_range, first_drop_time, emplace_back,
}
use resource_pool.Storage.WellFormed.{WellFormed}

min_le_right : (a b : TimePoint) → min_ℤ a b ≤ℤ b
min_le_right a b = ground arith

module _ {ℓ} {T : Type ℓ} where
  no_cells-WellFormed :
      (idle_timeout lifespan : Duration) → WellFormed (no_cells {T = T} idle_timeout lifespan)
  no_cells-WellFormed i l = record {
    owned = λ c. ground arith;
    sizes = refl;
    wasted_empty = λ c h. absurd (omega arith);
    unmarked = λ c h. absurd (omega arith);
    within = λ c h. absurd (omega arith);
  }

  append_wasted-WellFormed : (n : ℕ) (s : Storage T) → WellFormed s → WellFormed (append_wasted n s)
  unfolding append_wasted
  append_wasted-WellFormed zero s w = w
  append_wasted-WellFormed (suc n) s w = append_wasted-WellFormed n _ (record {
    owned = λ c. ground (arith, w.owned c, count-append c s.wasted (s.nodes ∷ []));
    sizes = ground (arith, w.sizes, length-append s.wasted (s.nodes ∷ []));
    wasted_empty = λ c h. ground (arith, w.wasted_empty c, count-append c s.wasted (s.nodes ∷ []));
    unmarked = λ c h. ground (arith, w.unmarked c);
    within = λ c h. ground (arith, w.within c, w.owned c);
  })

  emplace_back-WellFormed :
      (drop now : TimePoint) (v : T) (s : Storage T)
      → drop ≤ℤ add now s.lifespan
      → WellFormed s
      → WellFormed (emplace_back drop now v s)
  unfolding emplace_back
  emplace_back-WellFormed drop now v s early w = record {
    owned = λ c. ground (arith, w.owned c, count-append c s.available (s.nodes ∷ []));
    sizes = ground (arith, w.sizes, length-append s.available (s.nodes ∷ []));
    wasted_empty = λ c h. ground (arith, w.wasted_empty c, w.owned c);
    unmarked = λ c h. ground (arith, w.unmarked c, count-append c s.available (s.nodes ∷ []));
    within = λ c h. ground (arith, w.within c, count-append c s.available (s.nodes ∷ []));
  }

  generate-WellFormed :
      (drop now : TimePoint) (generator : ℕ → T) (i n : ℕ) (s : Storage T)
      → drop ≤ℤ add now s.lifespan
      → WellFormed s
      → WellFormed (generate drop now generator i n s)
  unfolding generate emplace_back
  generate-WellFormed drop now generator i zero s early w = w
  generate-WellFormed drop now generator i (suc n) s early w =
      generate-WellFormed drop now generator (suc i) n (emplace_back drop now (generator i) s) early
        (emplace_back-WellFormed drop now (generator i) s early w)

  append_range-WellFormed :
      (drop now : TimePoint) (vs : List T) (s : Storage T)
      → drop ≤ℤ add now s.lifespan
      → WellFormed s
      → WellFormed (append_range drop now vs s)
  unfolding append_range emplace_back
  append_range-WellFormed drop now [] s early w = w
  append_range-WellFormed drop now (v ∷ vs) s early w =
      append_range-WellFormed drop now vs (emplace_back drop now v s) early
        (emplace_back-WellFormed drop now v s early w)

  -- Every constructor makes a well-formed storage.
  pub with_capacity-WellFormed :
      (capacity : ℕ) (idle_timeout lifespan : Duration)
      → WellFormed (with_capacity {T = T} capacity idle_timeout lifespan)
  unfolding with_capacity
  with_capacity-WellFormed capacity i l =
      append_wasted-WellFormed capacity _ (no_cells-WellFormed i l)

  pub with_generator-WellFormed :
      (now : TimePoint) (generator : ℕ → T) (capacity : ℕ) (idle_timeout lifespan : Duration)
      → WellFormed (with_generator now generator capacity idle_timeout lifespan)
  unfolding with_generator
  with_generator-WellFormed now generator capacity i l =
      generate-WellFormed _ now generator 0 capacity _ (min_le_right (add now i) (add now l))
        (no_cells-WellFormed i l)

  pub with_range-WellFormed :
      (now : TimePoint) (values : List T) (idle_timeout lifespan : Duration)
      → WellFormed (with_range now values idle_timeout lifespan)
  unfolding with_range
  with_range-WellFormed now values i l =
      append_range-WellFormed _ now values _ (min_le_right (add now i) (add now l))
        (no_cells-WellFormed i l)
