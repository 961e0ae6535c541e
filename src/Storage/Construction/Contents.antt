-- ===== src/Storage/Construction/Contents.antt =====
-- storage.hpp: what the three constructors put into a storage.
use resource_pool.Prelude.{
  ℕ, zero, suc, ◌+◌, ◌<◌, ◌≡◌, refl, sym, ap, ◌∙◌, some, List, [], ◌∷◌, ◌++◌, length, get_elem?,
  length-append, arith,
}
use mathlib.Core.List.{append_assoc, append-nil}
use native.Mathlib.Nat.{add-zero, zero-add, add-suc, suc-add}
use resource_pool.Idle.{Idle, idle_cell, idle_value, update}
use resource_pool.Prelude.Int.{min_ℤ}
use resource_pool.TimeTraits.{TimePoint, Duration, add}
use resource_pool.Storage.{
  Storage, stats, no_cells, append_wasted, with_capacity, generate, with_generator, append_range,
  with_range, first_drop_time, emplace_back,
}
use resource_pool.Storage.WellFormed.{WellFormed}
use resource_pool.Storage.Construction.{
  with_capacity-WellFormed, with_generator-WellFormed, with_range-WellFormed,
}

-- `n` addresses from `k` on, in order.
abbrev pub addresses : ℕ → ℕ → List ℕ
addresses k zero = []
addresses k (suc n) = k ∷ addresses (suc k) n

length-addresses : (k n : ℕ) → length (addresses k n) ≡ n
length-addresses k zero = refl
length-addresses k (suc n) = ap suc (length-addresses (suc k) n)

module _ {ℓ} {T : Type ℓ} where
  -- What the loops leave in the lists.
  append_wasted_lists :
      (n : ℕ) (s : Storage T)
      → let r = append_wasted n s in
        (r.available ≡ s.available) × (r.used ≡ s.used) × (length r.wasted ≡ length s.wasted + n)
  unfolding append_wasted
  append_wasted_lists zero s = (refl, refl, omega arith)
  append_wasted_lists (suc n) s =
      let (a, u, w) = append_wasted_lists n _ in
      (a, u, omega (arith, w, length-append s.wasted (s.nodes ∷ [])))

  generate_lists :
      (drop now : TimePoint) (generator : ℕ → T) (i n : ℕ) (s : Storage T)
      → let r = generate drop now generator i n s in
        (r.available ≡ s.available ++ addresses s.nodes n)
        × (r.used ≡ s.used)
        × (r.wasted ≡ s.wasted)
  unfolding generate emplace_back
  generate_lists drop now generator i zero s = (sym (append-nil s.available), refl, refl)
  generate_lists drop now generator i (suc n) s =
      let (a, u, w) =
        generate_lists drop now generator (suc i) n (emplace_back drop now (generator i) s) in
      (a ∙ append_assoc s.available (s.nodes ∷ []) (addresses (suc s.nodes) n), u, w)

  append_range_lists :
      (drop now : TimePoint) (vs : List T) (s : Storage T)
      → let r = append_range drop now vs s in
        (r.available ≡ s.available ++ addresses s.nodes (length vs))
        × (r.used ≡ s.used)
        × (r.wasted ≡ s.wasted)
  unfolding append_range emplace_back
  append_range_lists drop now [] s = (sym (append-nil s.available), refl, refl)
  append_range_lists drop now (v ∷ vs) s =
      let (a, u, w) = append_range_lists drop now vs (emplace_back drop now v s) in
      (a ∙ append_assoc s.available (s.nodes ∷ []) (addresses (suc s.nodes) (length vs)), u, w)

  -- What they leave in the cells below the first new address, and from it on.
  generate_below :
      (drop now : TimePoint) (generator : ℕ → T) (i n : ℕ) (s : Storage T) (d : ℕ)
      → d < s.nodes
      → (generate drop now generator i n s).cells d ≡ s.cells d
  unfolding generate emplace_back
  generate_below drop now generator i zero s d h = refl
  generate_below drop now generator i (suc n) s d h =
      ground (
        arith,
        generate_below drop now generator (suc i) n (emplace_back drop now (generator i) s) d,
      )

  generate_cell :
      (drop now : TimePoint) (generator : ℕ → T) (i n : ℕ) (s : Storage T) (j : ℕ)
      → j < n
      → (generate drop now generator i n s).cells (s.nodes + j)
        ≡ idle_value (generator (i + j)) drop now
  unfolding generate emplace_back
  generate_cell drop now generator i zero s j h = absurd (omega arith)
  generate_cell drop now generator i (suc n) s zero h =
      rw (add-zero, add-zero)
        (generate_below drop now generator (suc i) n (emplace_back drop now (generator i) s) s.nodes
            (omega arith)
          ∙ ground arith)
  generate_cell drop now generator i (suc n) s (suc j) h =
      rw (add-suc, add-suc, ← suc-add, ← suc-add)
        (generate_cell drop now generator (suc i) n (emplace_back drop now (generator i) s) j
          (omega arith))

  append_range_below :
      (drop now : TimePoint) (vs : List T) (s : Storage T) (d : ℕ)
      → d < s.nodes
      → (append_range drop now vs s).cells d ≡ s.cells d
  unfolding append_range emplace_back
  append_range_below drop now [] s d h = refl
  append_range_below drop now (v ∷ vs) s d h =
      ground (arith, append_range_below drop now vs (emplace_back drop now v s) d)

  append_range_cell :
      (drop now : TimePoint) (vs : List T) (s : Storage T) (j : ℕ) (v : T)
      → get_elem? vs j ≡ some v
      → (append_range drop now vs s).cells (s.nodes + j) ≡ idle_value v drop now
  unfolding append_range emplace_back
  append_range_cell drop now [] s j v e = cc
  append_range_cell drop now (x ∷ vs) s zero v e = rw add-zero (
      append_range_below drop now vs (emplace_back drop now x s) s.nodes (omega arith)
      ∙ ground arith)
  append_range_cell drop now (x ∷ vs) s (suc j) v e =
      rw (add-suc, ← suc-add) (append_range_cell drop now vs (emplace_back drop now x s) j v e)

  -- The cell of a value that a constructor puts in: it expires by the earlier of the idle timeout and the
  -- lifespan, and was reset when the storage was made.
  abbrev pub new_cell : TimePoint → Duration → Duration → T → Idle T
  new_cell now i l v = idle_value v (min_ℤ (add now i) (add now l)) now

  with_generator_lem :
      (now : TimePoint) (generator : ℕ → T) (capacity : ℕ) (i l : Duration)
      → let s = with_generator now generator capacity i l in
        (stats s ≡ record { available = capacity; used = 0; wasted = 0 })
        × (s.available ≡ addresses 0 capacity)
        × ((j : ℕ) → j < capacity → s.cells j ≡ new_cell now i l (generator j))
  unfolding stats with_generator
  with_generator_lem now generator capacity i l =
      let drop = first_drop_time now i l in
      let (a, u, w) = generate_lists drop now generator 0 capacity (no_cells i l) in
      (
        ground (arith, ap (length {A = ℕ}) a, length-addresses 0 capacity, u, w),
        a,
        λ j h. rw zero-add at (generate_cell drop now generator 0 capacity (no_cells i l) j h),
      )

  with_range_lem :
      (now : TimePoint) (values : List T) (i l : Duration)
      → let s = with_range now values i l in
        (stats s ≡ record { available = length values; used = 0; wasted = 0 })
        × (s.available ≡ addresses 0 (length values))
        × ((j : ℕ) (v : T) → get_elem? values j ≡ some v → s.cells j ≡ new_cell now i l v)
  unfolding stats with_range
  with_range_lem now values i l =
      let drop = first_drop_time now i l in
      let (a, u, w) = append_range_lists drop now values (no_cells i l) in
      (
        ground (arith, ap (length {A = ℕ}) a, length-addresses 0 (length values), u, w),
        a,
        λ j v e. rw zero-add at (append_range_cell drop now values (no_cells i l) j v e),
      )

stats-with_capacity {ℓ} :
    (T : Type ℓ) (capacity : ℕ) (i l : Duration)
    → stats (with_capacity {T = T} capacity i l)
      ≡ record { available = 0; used = 0; wasted = capacity }
unfolding stats with_capacity
stats-with_capacity T capacity i l =
    let (a, u, w) = append_wasted_lists capacity (no_cells {T = T} i l) in ground (arith, a, u, w)

append_wasted_nodes {ℓ} :
    {T : Type ℓ} (n : ℕ) (s : Storage T) → (append_wasted n s).nodes ≡ s.nodes + n
unfolding append_wasted
append_wasted_nodes zero s = omega arith
append_wasted_nodes (suc n) s = omega (
  arith,
  append_wasted_nodes n (record s {
    nodes = suc s.nodes;
    cells = update s.cells s.nodes idle_cell;
    wasted = s.wasted ++ s.nodes ∷ [];
  }),
)

pub nodes-with_capacity {ℓ} :
    (T : Type ℓ) (capacity : ℕ) (i l : Duration)
    → (with_capacity {T = T} capacity i l).nodes ≡ capacity
unfolding with_capacity
nodes-with_capacity T capacity i l =
    omega (arith, append_wasted_nodes capacity (no_cells {T = T} i l))

pub used-with_capacity {ℓ} :
    (T : Type ℓ) (capacity : ℕ) (i l : Duration) → (with_capacity {T = T} capacity i l).used ≡ []
unfolding with_capacity
used-with_capacity T capacity i l = (append_wasted_lists capacity (no_cells {T = T} i l)).1

pub full-with_generator {ℓ} :
    {T : Type ℓ} (now : TimePoint) (generator : ℕ → T) (capacity : ℕ) (i l : Duration)
    → let s = with_generator now generator capacity i l in (s.used ≡ []) × (s.nodes ≡ capacity)
unfolding with_generator
full-with_generator now generator capacity i l =
    let (a, u, w) =
      generate_lists (first_drop_time now i l) now generator 0 capacity (no_cells i l) in
    let sizes = (with_generator-WellFormed now generator capacity i l).sizes in
    (
      u,
      omega (
        arith,
        ap (length {A = ℕ}) a,
        length-addresses 0 capacity,
        ap (length {A = ℕ}) u,
        ap (length {A = ℕ}) w,
        sizes,
      ),
    )

-- With a capacity alone a storage has that many cells, all wasted. From a generator it has that many, all
-- available and listed in the order of the calls, with the first values of the generator; from a range,
-- one for each of its values, all available and listed in this order. The cell of a value is to be
-- dropped at the end of the idle timeout or of the lifespan, whichever comes first, and counts as reset
-- when the storage was made. In each case the storage is well-formed.
pub constructors_lem {ℓ} :
    {T : Type ℓ} (now : TimePoint) (generator : ℕ → T) (values : List T) (capacity : ℕ)
    (i l : Duration)
    → let empty = with_capacity {T = T} capacity i l in
      let made = with_generator now generator capacity i l in
      let ranged = with_range now values i l in
      (stats empty ≡ record { available = 0; used = 0; wasted = capacity })
      × (stats made ≡ record { available = capacity; used = 0; wasted = 0 })
      × (made.available ≡ addresses 0 capacity)
      × ((j : ℕ) → j < capacity → made.cells j ≡ new_cell now i l (generator j))
      × (stats ranged ≡ record { available = length values; used = 0; wasted = 0 })
      × (ranged.available ≡ addresses 0 (length values))
      × ((j : ℕ) (v : T) → get_elem? values j ≡ some v → ranged.cells j ≡ new_cell now i l v)
      × WellFormed empty
      × WellFormed made
      × WellFormed ranged
constructors_lem {T = T} now generator values capacity i l =
    let made = with_generator_lem now generator capacity i l in
    let ranged = with_range_lem now values i l in
    (
      stats-with_capacity T capacity i l,
      made.0,
      made.1,
      made.2,
      ranged.0,
      ranged.1,
      ranged.2,
      with_capacity-WellFormed capacity i l,
      with_generator-WellFormed now generator capacity i l,
      with_range-WellFormed now values i l,
    )
