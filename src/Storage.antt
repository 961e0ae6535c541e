-- ===== src/Storage.antt =====
-- include/yamail/resource_pool/detail/storage.hpp and detail/idle.hpp: the cells of a pool and the
-- three lists that they move between.
--
-- A `std::list` node keeps its address when it is spliced into another list, and a `cell_iterator`
-- is that address. So the cells stand in one store, `cells`, by address, and the three lists hold
-- addresses. Nodes are made by the constructors alone, at the addresses below `nodes`, and are
-- never freed while the storage lives.
pub mod Access
pub mod WellFormed
pub mod Construction
pub mod Lease
pub mod Grant
pub mod Return
pub mod Held
pub mod Invalidation
pub mod Validity
use resource_pool.Prelude.{
  ℕ, zero, suc, ◌+◌, ltb, ◌==◌, if◌then◌else◌, Bool, true, false, Option, none, some, List, [], ◌∷◌,
  ◌++◌, length, contains, erase,
}
use resource_pool.Prelude.Int.{ltb_ℤ, leb_ℤ, min_ℤ}
use resource_pool.Outcome.{Outcome, ok, undefined, ◌>>=◌, require}
use resource_pool.Idle.{Idle, idle_cell, idle_value, update, reset_value}
use resource_pool.TimeTraits.{TimePoint, Duration, time_max, epoch, add}

-- A default-constructed iterator is singular; any other stands for the node at an address.
pub data CellIterator : Type 0 where
  singular : CellIterator
  at : ℕ → CellIterator

pub record StorageStats : Type 0 where
  pub available : ℕ
  pub used : ℕ
  pub wasted : ℕ

pub record Storage {ℓ} (T : Type ℓ) : Type ℓ where
  pub idle_timeout : Duration
  pub lifespan : Duration
  pub nodes : ℕ
  pub cells : ℕ → Idle T
  pub available : List ℕ
  pub used : List ℕ
  pub wasted : List ℕ

abbrev pub first_drop_time : TimePoint → Duration → Duration → TimePoint
first_drop_time now idle_timeout lifespan = min_ℤ (add now idle_timeout) (add now lifespan)

module _ {ℓ} {T : Type ℓ} where
  abbrev pub no_cells : Duration → Duration → Storage T
  no_cells idle_timeout lifespan = record {
    idle_timeout = idle_timeout;
    lifespan = lifespan;
    nodes = 0;
    cells = λ _. idle_cell;
    available = [];
    used = [];
    wasted = [];
  }

  -- `wasted_(capacity)` makes its default cells one behind the other.
  unfoldable pub append_wasted : ℕ → Storage T → Storage T
  append_wasted zero s = s
  append_wasted (suc n) s = append_wasted n (record s {
    nodes = suc s.nodes;
    cells = update s.cells s.nodes idle_cell;
    wasted = s.wasted ++ s.nodes ∷ [];
  })

  unfoldable pub with_capacity : ℕ → Duration → Duration → Storage T
  unfolding append_wasted
  with_capacity capacity idle_timeout lifespan =
      append_wasted capacity (no_cells idle_timeout lifespan)

  -- `available_.emplace_back(v, drop_time, now)`
  unfoldable pub emplace_back : TimePoint → TimePoint → T → Storage T → Storage T
  emplace_back drop now v s = record s {
    nodes = suc s.nodes;
    cells = update s.cells s.nodes (idle_value v drop now);
    available = s.available ++ s.nodes ∷ [];
  }

  -- The generator's calls are numbered from 0: `generator i` is what call `i` returns.
  unfoldable pub generate : TimePoint → TimePoint → (ℕ → T) → ℕ → ℕ → Storage T → Storage T
  generate drop now generator i zero s = s
  generate drop now generator i (suc n) s =
      generate drop now generator (suc i) n (emplace_back drop now (generator i) s)

  unfoldable pub with_generator : TimePoint → (ℕ → T) → ℕ → Duration → Duration → Storage T
  unfolding generate emplace_back
  with_generator now generator capacity idle_timeout lifespan =
      generate (first_drop_time now idle_timeout lifespan) now generator 0 capacity
        (no_cells idle_timeout lifespan)

  unfoldable pub append_range : TimePoint → TimePoint → List T → Storage T → Storage T
  append_range drop now [] s = s
  append_range drop now (v ∷ vs) s = append_range drop now vs (emplace_back drop now v s)

  unfoldable pub with_range : TimePoint → List T → Duration → Duration → Storage T
  unfolding append_range emplace_back
  with_range now values idle_timeout lifespan =
      append_range (first_drop_time now idle_timeout lifespan) now values
        (no_cells idle_timeout lifespan)

  unfoldable pub stats : Storage T → StorageStats
  stats s = record {
    available = length s.available;
    used = length s.used;
    wasted = length s.wasted;
  }

  -- The candidate at the front of `available_` has outlived its drop time.
  unfoldable pub expire : ℕ → List ℕ → Storage T → Storage T
  expire c rest s = record s {
    cells = reset_value s.cells c;
    available = rest;
    wasted = s.wasted ++ c ∷ [];
  }

  unfoldable pub take_available : ℕ → List ℕ → Storage T → Storage T
  take_available c rest s = record s { available = rest; used = s.used ++ c ∷ [] }

  unfoldable pub take_wasted : ℕ → List ℕ → Storage T → Storage T
  take_wasted c rest s = record s {
    cells = update s.cells c (record (s.cells c) { waste_on_recycle = false });
    used = s.used ++ c ∷ [];
    wasted = rest;
  }

  unfoldable pub lease_wasted : Storage T → Option CellIterator × Storage T
  unfolding take_wasted
  lease_wasted s = elim s.wasted [ [] ↦ (none, s) | c ∷ rest ↦ (some (at c), take_wasted c rest s) ]

  -- The loop over `available_`, whose nodes are given once more as a list.
  unfoldable pub lease_loop : TimePoint → List ℕ → Storage T → Option CellIterator × Storage T
  unfolding lease_wasted expire take_available
  lease_loop now [] s = lease_wasted s
  lease_loop now (c ∷ rest) s =
      let later = lease_loop now rest (expire c rest s) in
      if ltb_ℤ now (s.cells c).drop_time then (some (at c), take_available c rest s) else later

  unfoldable pub lease : TimePoint → Storage T → Option CellIterator × Storage T
  unfolding lease_loop
  lease now s = lease_loop now s.available s

  -- `*cell` of an iterator.
  unfoldable pub deref : CellIterator → Storage T → Outcome ℕ
  deref singular s = undefined
  deref (at c) s = require (ltb c s.nodes) c

  unfoldable pub put_wasted : ℕ → Storage T → Storage T
  put_wasted c s = record s {
    cells = reset_value s.cells c;
    used = erase c s.used;
    wasted = s.wasted ++ c ∷ [];
  }

  -- A splice out of `used_` wants a node of `used_`.
  unfoldable pub waste : CellIterator → Storage T → Outcome (Storage T)
  unfolding deref put_wasted
  waste cell s = do c ← deref cell s; require (contains c s.used) (put_wasted c s)

  abbrev pub life_end : Storage T → ℕ → TimePoint
  life_end s c = add (s.cells c).reset_time s.lifespan

  unfoldable pub put_available : TimePoint → ℕ → Storage T → Storage T
  put_available now c s = record s {
    cells =
        update s.cells c
          (record (s.cells c) { drop_time = min_ℤ (add now s.idle_timeout) (life_end s c) });
    available = s.available ++ c ∷ [];
    used = erase c s.used;
  }

  unfoldable pub recycle : TimePoint → CellIterator → Storage T → Outcome (Storage T)
  unfolding deref waste put_available
  recycle now cell s = do
    c ← deref cell s
    if (s.cells c).waste_on_recycle
        then waste cell s
        else if leb_ℤ (life_end s c) now
        then waste cell s
        else require (contains c s.used) (put_available now c s)

  unfoldable pub is_valid : TimePoint → CellIterator → Storage T → Outcome Bool
  unfolding deref
  is_valid now cell s = do
    c ← deref cell s
    ok (
        if (s.cells c).waste_on_recycle
        then false
        else if leb_ℤ (life_end s c) now
        then false
        else true)

  -- The two loops of `invalidate`.
  unfoldable pub reset_values : List ℕ → (ℕ → Idle T) → ℕ → Idle T
  reset_values [] cells = cells
  reset_values (c ∷ cs) cells = reset_values cs (reset_value cells c)

  unfoldable pub mark_used : List ℕ → (ℕ → Idle T) → ℕ → Idle T
  mark_used [] cells = cells
  mark_used (c ∷ cs) cells =
      mark_used cs (update cells c (record (cells c) { waste_on_recycle = true }))

  unfoldable pub invalidate : Storage T → Storage T
  unfolding reset_values mark_used
  invalidate s = record s {
    cells = mark_used s.used (reset_values s.available s.cells);
    available = [];
    wasted = s.wasted ++ s.available;
  }
