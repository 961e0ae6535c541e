-- ===== src/Handle.antt =====
-- include/yamail/resource_pool/handle.hpp, over the interface of detail/pool_returns.hpp.
--
-- `W` is all that a handle can touch: the pools and the cells that their iterators point at. A
-- `shared_ptr` to a pool is a number, and `none` is the null pointer.
pub mod Lifecycle
use resource_pool.Prelude.{ℕ, ◌≡◌, ◌≢◌, Bool, true, false, not, if◌then◌else◌, Option, none, some}
use resource_pool.Outcome.{Outcome, ok, throws, undefined, ◌>>=◌, empty_handle, unusable_handle}
use resource_pool.Idle.{Idle}
use resource_pool.TimeTraits.{TimePoint}
use resource_pool.Storage.{CellIterator}

-- The virtual functions `waste` and `recycle`, the reads and writes of a cell through its iterator,
-- and what a handle relies on: a cell that is lent out by a pool can be returned to it, read and
-- written, and reads what was written.
pub record PoolReturns {ℓ} (T : Type ℓ) (W : Type ℓ) : Type (ℓ + 1) where
  pub waste : ℕ → CellIterator → W → Outcome W
  pub recycle : ℕ → TimePoint → CellIterator → W → Outcome W
  pub load : CellIterator → W → Outcome (Idle T)
  pub store : CellIterator → Idle T → W → Outcome W
  pub Lent : ℕ → CellIterator → W → Type ℓ
  pub waste_defined :
      (p : ℕ) (it : CellIterator) (w : W) → Lent p it w → (w' : W) × (waste p it w ≡ ok w')
  pub recycle_defined :
      (p : ℕ) (now : TimePoint) (it : CellIterator) (w : W)
      → Lent p it w
      → (w' : W) × (recycle p now it w ≡ ok w')
  pub load_defined :
      (p : ℕ) (it : CellIterator) (w : W) → Lent p it w → (x : Idle T) × (load it w ≡ ok x)
  pub store_lem :
      (p : ℕ) (it : CellIterator) (x : Idle T) (w : W)
      → Lent p it w
      → (w' : W) × (store it x w ≡ ok w') × Lent p it w' × (load it w' ≡ ok x)

-- `&handle::waste` and `&handle::recycle`
pub data Strategy : Type 0 where
  waste_strategy recycle_strategy : Strategy

-- The strategy of a default-constructed handle is indeterminate.
pub record Handle : Type 0 where
  pub pool_impl : Option ℕ
  pub use_strategy : Option Strategy
  pub resource_it : Option CellIterator

-- `handle()`
abbrev pub default_handle : Handle
default_handle = record { pool_impl = none; use_strategy = none; resource_it = none }

-- `handle(pool_impl, use_strategy, resource_it)`
unfoldable pub make_handle : ℕ → Strategy → CellIterator → Handle
make_handle pool strategy it = record {
  pool_impl = some pool;
  use_strategy = some strategy;
  resource_it = some it;
}

unfoldable pub unusable : Handle → Bool
unusable h = elim h.resource_it [ none ↦ true | some it ↦ false ]

-- `handle(handle&& other)`: the new handle, and what is left of `other`.
unfoldable pub move : Handle → Handle × Handle
move other = (
  record {
    pool_impl = other.pool_impl;
    use_strategy = other.use_strategy;
    resource_it = other.resource_it;
  },
  record other { pool_impl = none; resource_it = none },
)

-- `_resource_it.get()`, which must hold a value, and `*_pool_impl`.
unfoldable pub the_iterator : Handle → Outcome CellIterator
the_iterator h = elim h.resource_it [ none ↦ undefined | some it ↦ ok it ]

unfoldable pub the_pool : Handle → Outcome ℕ
the_pool h = elim h.pool_impl [ none ↦ undefined | some p ↦ ok p ]

unfoldable pub assert_not_unusable : Handle → Outcome (Unit {0})
unfolding unusable
assert_not_unusable h = if unusable h then throws unusable_handle else ok tt

module _ {ℓ} {T W : Type ℓ} (pools : PoolReturns T W) where
  open pools use {load, store}

  unfoldable pub empty : Handle → W → Outcome Bool
  unfolding unusable the_iterator
  empty h w = if unusable h then ok true else (do
    it ← the_iterator h
    cell ← load it w
    ok (elim cell.value [ none ↦ true | some v ↦ false ]))

  unfoldable pub assert_not_empty : Handle → W → Outcome (Unit {0})
  unfolding empty
  assert_not_empty h w = do nothing ← empty h w; if nothing then throws empty_handle else ok tt

  unfoldable pub get : Handle → W → Outcome T
  unfolding assert_not_empty
  get h w = do
    _ ← assert_not_empty h w
    it ← the_iterator h
    cell ← load it w
    elim cell.value [ none ↦ undefined | some v ↦ ok v ]

  unfoldable pub recycle : TimePoint → Handle → W → Outcome (Handle × W)
  unfolding assert_not_unusable the_iterator the_pool
  recycle now h w = do
    _ ← assert_not_unusable h
    p ← the_pool h
    it ← the_iterator h
    w ← pools.recycle p now it w
    ok (record h { resource_it = none }, w)

  unfoldable pub waste : Handle → W → Outcome (Handle × W)
  unfolding assert_not_unusable the_iterator the_pool
  waste h w = do
    _ ← assert_not_unusable h
    p ← the_pool h
    it ← the_iterator h
    w ← pools.waste p it w
    ok (record h { resource_it = none }, w)

  unfoldable pub reset : TimePoint → T → Handle → W → Outcome W
  unfolding assert_not_unusable the_iterator
  reset now v h w = do
    _ ← assert_not_unusable h
    it ← the_iterator h
    cell ← load it w
    store it (record cell { value = some v; reset_time = now }) w

  -- `(this->*_use_strategy)()`
  unfoldable pub run_strategy : TimePoint → Handle → W → Outcome (Handle × W)
  unfolding recycle waste
  run_strategy now h w = elim h.use_strategy [
    | none ↦ undefined
    | some waste_strategy ↦ waste h w
    | some recycle_strategy ↦ recycle now h w
  ]

  -- `~handle()`
  unfoldable pub destroy : TimePoint → Handle → W → Outcome W
  unfolding unusable run_strategy
  destroy now h w = if unusable h then ok w else (do (_, w) ← run_strategy now h w; ok w)

  -- `operator =(handle&& other)`: this handle, what is left of `other`, and the pools.
  unfoldable pub move_assign : TimePoint → Handle → Handle → W → Outcome (Handle × Handle × W)
  unfolding unusable run_strategy move
  move_assign now h other w = do
    w ← (if unusable h then ok w else (do (_, w) ← run_strategy now h w; ok w))
    let (taken, left) = move other
    ok (taken, left, w)
