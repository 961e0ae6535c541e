-- ===== src/Idle.antt =====
-- include/yamail/resource_pool/detail/idle.hpp: one cell of a pool, and the writes to a store of
-- cells that is read by address.
use resource_pool.Prelude.{ℕ, ◌==◌, if◌then◌else◌, Bool, false, Option, none, some}
use resource_pool.TimeTraits.{TimePoint, time_max, epoch}

pub record Idle {ℓ} (T : Type ℓ) : Type ℓ where
  pub value : Option T
  pub drop_time : TimePoint
  pub reset_time : TimePoint
  pub waste_on_recycle : Bool

module _ {ℓ} {T : Type ℓ} where
  -- The two constructors of `idle`; `reset_time()` of the first is the clock's epoch.
  abbrev pub idle_cell : Idle T
  idle_cell = record {
    value = none;
    drop_time = time_max;
    reset_time = epoch;
    waste_on_recycle = false;
  }

  abbrev pub idle_value : T → TimePoint → TimePoint → Idle T
  idle_value v drop reset = record {
    value = some v;
    drop_time = drop;
    reset_time = reset;
    waste_on_recycle = false;
  }

  -- A write to one cell.
  abbrev pub update : (ℕ → Idle T) → ℕ → Idle T → ℕ → Idle T
  update cells c x d = if d == c then x else cells d

  -- `value.reset()` of `boost::optional`
  abbrev pub reset_value : (ℕ → Idle T) → ℕ → ℕ → Idle T
  reset_value cells c = update cells c (record (cells c) { value = none })
