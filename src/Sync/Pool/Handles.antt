-- ===== src/Sync/Pool/Handles.antt =====
-- sync/pool.hpp: the sync pool under its handles, and the handle that comes with an error.
use resource_pool.Prelude.{ℕ, ◌≡◌, refl, ap, if◌then◌else◌, true, false, Option, none, some, List}
use mathlib.Core.Option
use resource_pool.Outcome.{ok, undefined, >>=-eq-ok, ok-injective}
use resource_pool.Idle.{Idle}
use resource_pool.Error.{ErrorCode, failed}
use resource_pool.TimeTraits.{TimePoint}
use resource_pool.Storage
use resource_pool.Storage.{Storage, CellIterator, at, singular, deref, put_wasted, put_available}
use resource_pool.Storage.WellFormed.{WellFormed}
use resource_pool.Storage.Return.{is_live, waste_lem, recycle_lem}
use resource_pool.Outcome.{◌>>=◌}
use resource_pool.Storage.Access.{load, store, InUse, in_use, load_defined, store_defined}
use resource_pool.Handle.{
  PoolReturns, Handle, Strategy, waste_strategy, recycle_strategy, make_handle, unusable, destroy,
}
use resource_pool.Sync.PoolImpl
use resource_pool.Sync.PoolImpl.{PoolImpl, GetResult, Wakeup}
use resource_pool.Sync.PoolImpl.Get.{
  GetOutcome, lent, refused_disabled, refused_timeout, Keeps, get-GetOutcome,
}
use resource_pool.Sync.Pool.{Pool, get_handle, the_impl}

module _ {ℓ} {T : Type ℓ} where
  pub waste_defined :
      (it : CellIterator) (p : PoolImpl T)
      → InUse it p.storage
      → (q : PoolImpl T) × (PoolImpl.waste it p ≡ ok q)
  waste_defined it p (in_use c e w held) = (
    record p {
      storage = put_wasted c p.storage;
      has_capacity = PoolImpl.notify_one p.has_capacity;
    },
    rw e (unfold PoolImpl.waste in rw (waste_lem p.storage c w held)),
  )

  pub recycle_defined :
      (now : TimePoint) (it : CellIterator) (p : PoolImpl T)
      → InUse it p.storage
      → (q : PoolImpl T) × (PoolImpl.recycle now it p ≡ ok q)
  recycle_defined now it p (in_use c e w held) = (
    record p {
      storage =
          if is_live now c p.storage then put_available now c p.storage else put_wasted c p.storage;
      has_capacity = PoolImpl.notify_one p.has_capacity;
    },
    rw e (unfold PoolImpl.recycle in rw (recycle_lem p.storage c w held now)),
  )

  pub store_kept :
      (it : CellIterator) (x : Idle T) (p : PoolImpl T)
      → InUse it p.storage
      → (q : PoolImpl T) × ((do s ← store it x p.storage; ok (record p { storage = s })) ≡ ok q)
        × InUse it q.storage
        × (load it q.storage ≡ ok x)
  store_kept it x p h =
      let (s, e, h', again) = store_defined it x p.storage h in
      (record p { storage = s }, rw e, h', again)

-- The sync pool is what a handle asks for.
abbrev pub sync_returns {ℓ} : {T : Type ℓ} → PoolReturns T (PoolImpl T)
sync_returns = record {
  waste = λ _ it p. PoolImpl.waste it p;
  recycle = λ _ now it p. PoolImpl.recycle now it p;
  load = λ it p. load it p.storage;
  store = λ it x p. (do s ← store it x p.storage; ok (record p { storage = s }));
  Lent = λ _ it p. InUse it p.storage;
  waste_defined = λ _ it p h. waste_defined it p h;
  recycle_defined = λ _ now it p h. recycle_defined now it p h;
  load_defined = λ _ it p h. load_defined it p.storage h;
  store_lem = λ _ it x p h. store_kept it x p h;
}

module _ {ℓ} {T : Type ℓ} where
  -- A result of `get_handle` is one of `get`, with its iterator in a handle.
  get_handle-parts :
      (pool : Pool) (strategy : Strategy) (now : TimePoint) (wakes : List (Wakeup T))
      (p q : PoolImpl T) (ec : ErrorCode) (h : Handle)
      → get_handle pool strategy now wakes p ≡ ok (some (ec, h), q)
      → (i : ℕ) × (it : CellIterator) × ((PoolImpl.get now wakes p).0 ≡ some (ec, it))
        × (h ≡ make_handle i strategy it)
  unfolding get_handle
  get_handle-parts pool strategy now wakes p q ec h e =
      let (i, ei, e') = >>=-eq-ok (the_impl pool) _ e in
      from_result i (PoolImpl.get now wakes p).0 (ap (λ x. x.0) (ok-injective e'))
    where
      from_result :
          (i : ℕ) (o : Option GetResult)
          → Option.map {B = ErrorCode × Handle} (λ r. (r.0, make_handle i strategy r.1)) o
            ≡ some (ec, h)
          → (i : ℕ) × (it : CellIterator) × (o ≡ some (ec, it)) × (h ≡ make_handle i strategy it)
      from_result i none e = cc
      from_result i (some (ec', it)) e = (i, it, cc, cc)

  error_is_singular :
      {p : PoolImpl T} {g : GetResult} → GetOutcome p g → failed g.0 ≡ true → g.1 ≡ singular
  unfolding failed
  error_is_singular (lent c held) f = cc
  error_is_singular (refused_disabled dis) f = refl
  error_is_singular refused_timeout f = refl

  undefined_end :
      (i : ℕ) (strategy : Strategy) (now : TimePoint) (p : PoolImpl T)
      → destroy sync_returns now (make_handle i strategy singular) p ≡ undefined
  unfolding destroy make_handle PoolImpl.recycle PoolImpl.waste Storage.recycle Storage.waste
  undefined_end i waste_strategy now p = refl
  undefined_end i recycle_strategy now p = refl

  -- With an error `get_handle` gives a handle that is not unusable, though its iterator is singular:
  -- when it is destroyed, or returned by hand, the behaviour is undefined.
  pub get_handle_error :
      (pool : Pool) (strategy : Strategy) (now : TimePoint) (wakes : List (Wakeup T))
      (p q : PoolImpl T) (ec : ErrorCode) (h : Handle)
      → WellFormed p.storage
      → Keeps wakes
      → get_handle pool strategy now wakes p ≡ ok (some (ec, h), q)
      → failed ec ≡ true
      → (unusable h ≡ false)
        × ((later : TimePoint) (r : PoolImpl T) → destroy sync_returns later h r ≡ undefined)
  get_handle_error pool strategy now wakes p q ec h w k e f =
      let (i, it, got, made) = get_handle-parts pool strategy now wakes p q ec h e in
      let out = (get-GetOutcome now wakes p w k).1 (ec, it) got in
      let none_lent = error_is_singular out f in
      rw (made, none_lent)
        (unfold unusable make_handle in refl, λ later r. undefined_end i strategy later r)
