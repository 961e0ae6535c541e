-- ===== src/Handle/Lifecycle.antt =====
-- handle.hpp: a cell that a handle holds goes back to its pool once, by whatever way the handle ends.
use resource_pool.Prelude.{ℕ, ◌≡◌, refl, true, false, none, some}
use resource_pool.Outcome.{Outcome, ok, throws, ◌>>=◌, >>=-second, empty_handle, unusable_handle}
use resource_pool.TimeTraits.{TimePoint}
use resource_pool.Storage.{CellIterator}
use resource_pool.Handle.{
  PoolReturns, Strategy, waste_strategy, recycle_strategy, Handle, make_handle, unusable, empty,
  get, recycle, waste, reset, destroy, move, move_assign,
}

module _ {ℓ} {T W : Type ℓ} (pools : PoolReturns T W) where
  -- A handle that holds nothing: every use of it is refused with the pools untouched, and its
  -- destructor does nothing.
  pub record Spent (h : Handle) : Type ℓ where
    pub is_unusable : unusable h ≡ true
    pub is_empty : (w : W) → empty pools h w ≡ ok true
    pub recycle_throws : (now : TimePoint) (w : W) → recycle pools now h w ≡ throws unusable_handle
    pub waste_throws : (w : W) → waste pools h w ≡ throws unusable_handle
    pub reset_throws :
        (now : TimePoint) (v : T) (w : W) → reset pools now v h w ≡ throws unusable_handle
    pub get_throws : (w : W) → get pools h w ≡ throws empty_handle
    pub destroy_keeps : (now : TimePoint) (w : W) → destroy pools now h w ≡ ok w

  pub unusable-Spent : (h : Handle) → unusable h ≡ true → Spent h
  unfolding empty recycle waste reset get destroy
  unusable-Spent h e = record {
    is_unusable = e;
    is_empty = λ w. rw e;
    recycle_throws = λ now w. rw e;
    waste_throws = λ w. rw e;
    reset_throws = λ now v w. rw e;
    get_throws = λ w. rw e;
    destroy_keeps = λ now w. rw e;
  }

  -- What a strategy does to the pool.
  abbrev pub returns : Strategy → ℕ → TimePoint → CellIterator → W → Outcome W
  returns waste_strategy p now it w = pools.waste p it w
  returns recycle_strategy p now it w = pools.recycle p now it w

  -- What is left of a handle that has given its cell back.
  abbrev pub spent : ℕ → Strategy → Handle
  spent p strategy = record { pool_impl = some p; use_strategy = some strategy; resource_it = none }

  module _ (now : TimePoint) (p : ℕ) (strategy : Strategy) (it : CellIterator) (w : W) where
    -- A lent cell goes back by `recycle` or by `waste` whatever the strategy, and at the end of the
    -- handle's life by its strategy; the pool's function is called once, and the handle is spent.
    pub returned_once :
        pools.Lent p it w
        → Spent (spent p strategy)
          × ((w' : W) × (pools.recycle p now it w ≡ ok w')
              × (recycle pools now (make_handle p strategy it) w ≡ ok (spent p strategy, w')))
          × ((w' : W) × (pools.waste p it w ≡ ok w')
              × (waste pools (make_handle p strategy it) w ≡ ok (spent p strategy, w')))
          × (destroy pools now (make_handle p strategy it) w ≡ returns strategy p now it w)
    unfolding recycle waste destroy make_handle
    returned_once lent =
        let (w₁, e₁) = pools.recycle_defined p now it w lent in
        let (w₂, e₂) = pools.waste_defined p it w lent in
        (
          unusable-Spent (spent p strategy) (unfold unusable in refl),
          (w₁, e₁, rw e₁),
          (w₂, e₂, rw e₂),
          ends strategy,
        )
      where
        ends : (st : Strategy) → destroy pools now (make_handle p st it) w ≡ returns st p now it w
        ends waste_strategy = >>=-second _ (pools.waste p it w)
        ends recycle_strategy = >>=-second _ (pools.recycle p now it w)

    -- A value that a handle is given is what it reads from then on, and the cell stays lent.
    pub get-reset :
        (v : T)
        → pools.Lent p it w
        → (w' : W) × (reset pools now v (make_handle p strategy it) w ≡ ok w')
          × pools.Lent p it w'
          × (empty pools (make_handle p strategy it) w' ≡ ok false)
          × (get pools (make_handle p strategy it) w' ≡ ok v)
    unfolding reset empty get make_handle
    get-reset v lent =
        let (x, loaded) = pools.load_defined p it w lent in
        let (w', stored, lent', again) =
          pools.store_lem p it (record x { value = some v; reset_time = now }) w lent in
        (w', rw loaded stored, lent', rw again, rw again)

  -- A move hands the cell on: the source is spent, and the new handle ends as the source would have.
  pub move_lem :
      (h : Handle)
      → Spent (move h).1
        × ((now : TimePoint) (w : W) → destroy pools now (move h).0 w ≡ destroy pools now h w)
  unfolding move
  move_lem h = (unusable-Spent _ (unfold unusable in refl), λ now w. refl)

  -- A move into a handle first ends what that handle holds, as its destructor would.
  move_assign_lem :
      (now : TimePoint) (h other : Handle) (w : W)
      → move_assign pools now h other w
        ≡ (destroy pools now h w >>= λ w'. ok ((move other).0, (move other).1, w'))
  unfolding move_assign destroy move
  move_assign_lem now h other w = refl
