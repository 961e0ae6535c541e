-- ===== src/Examples/SoleCell.antt =====
-- The pool of examples/sync/pool.cc while its only cell is lent, and when it has come back.
use resource_pool.Prelude.{
  ℕ, ◌+◌, ◌<◌, ◌≡◌, refl, sym, ap, ◌∙◌, if◌then◌else◌, length, length-erase, count, arith,
}
use resource_pool.Outcome.{ok, ◌>>=◌, >>=-eq-ok, ok-injective}
use resource_pool.TimeTraits.{TimePoint}
use resource_pool.Idle.{Idle}
use resource_pool.Storage
use resource_pool.Storage.{Storage, CellIterator, at, put_available, put_wasted}
use resource_pool.Storage.WellFormed.{WellFormed}
use resource_pool.Storage.Return.{is_live, recycle_lem, returned-WellFormed, returned_lem}
use resource_pool.Storage.Access.{load, store, InUse, in_use, load_defined, store_defined}
use resource_pool.Handle.{PoolReturns}
use resource_pool.Sync.PoolImpl
use resource_pool.Sync.PoolImpl.{PoolImpl}
use resource_pool.Sync.Pool.Handles.{recycle_defined, waste_defined}

-- The only cell of a pool is in use.
pub record Sole {ℓ} {T : Type ℓ} (it : CellIterator) (p : PoolImpl T) : Type ℓ where
  pub lent : InUse it p.storage
  pub one_used : length p.storage.used ≡ 1
  pub one_cell : p.storage.nodes ≡ 1

module _ {ℓ} {T : Type ℓ} where
  store_keeps :
      (it : CellIterator) (x : Idle T) (s s' : Storage T)
      → store it x s ≡ ok s'
      → (s'.used ≡ s.used) × (s'.nodes ≡ s.nodes)
  unfolding store
  store_keeps it x s s' e =
      let (c, _, made) = >>=-eq-ok (Storage.deref it s) _ e in
      let same = ok-injective made in (sym (ap (λ t. t.used) same), sym (ap (λ t. t.nodes) same))

  pub store-Sole :
      (it : CellIterator) (x : Idle T) (p : PoolImpl T)
      → Sole it p
      → (q : PoolImpl T) × ((do s ← store it x p.storage; ok (record p { storage = s })) ≡ ok q)
        × Sole it q
        × (load it q.storage ≡ ok x)
  store-Sole it x p h =
      let (s, e, h', again) = store_defined it x p.storage h.lent in
      let (same_used, same_nodes) = store_keeps it x p.storage s e in
      (
        record p { storage = s },
        rw e,
        record {
          lent = h';
          one_used = ap length same_used ∙ h.one_used;
          one_cell = same_nodes ∙ h.one_cell;
        },
        again,
      )

-- The sync pool as handles see it, while its only cell is lent.
abbrev pub sole_returns {ℓ} : {T : Type ℓ} → PoolReturns T (PoolImpl T)
sole_returns = record {
  waste = λ _ it p. PoolImpl.waste it p;
  recycle = λ _ now it p. PoolImpl.recycle now it p;
  load = λ it p. load it p.storage;
  store = λ it x p. (do s ← store it x p.storage; ok (record p { storage = s }));
  Lent = λ _ it p. Sole it p;
  waste_defined = λ _ it p h. waste_defined it p h.lent;
  recycle_defined = λ _ now it p h. recycle_defined now it p h.lent;
  load_defined = λ _ it p h. load_defined it p.storage h.lent;
  store_lem = λ _ it x p h. store-Sole it x p h;
}

module _ {ℓ} {T : Type ℓ} where
  -- All cells of the pool are free.
  pub record Free (p : PoolImpl T) : Type ℓ where
    pub none_used : PoolImpl.used p ≡ 0
    pub one_free : length p.storage.available + length p.storage.wasted ≡ 1

  all_free :
      (q : PoolImpl T)
      → WellFormed q.storage
      → length q.storage.used ≡ 0
      → q.storage.nodes ≡ 1
      → Free q
  unfolding PoolImpl.used Storage.stats
  all_free q w nothing one = record {
    none_used = nothing;
    one_free = omega (arith, w.sizes, nothing, one);
  }

  recycled :
      (later : TimePoint) (p : PoolImpl T) (c : ℕ)
      → WellFormed p.storage
      → 0 < count c p.storage.used
      → PoolImpl.recycle later (at c) p
        ≡ ok (record p {
          storage =
              if is_live later c p.storage
              then put_available later c p.storage
              else put_wasted c p.storage;
          has_capacity = PoolImpl.notify_one p.has_capacity;
        })
  unfolding PoolImpl.recycle
  recycled later p c w held = rw (recycle_lem p.storage c w held later) refl

  pub recycled_free :
      (later : TimePoint) (it : CellIterator) (p : PoolImpl T)
      → Sole it p
      → (q : PoolImpl T) × (PoolImpl.recycle later it p ≡ ok q) × Free q
  recycled_free later it p h = by_cell h.lent
    where
      by_cell :
          InUse it p.storage → (q : PoolImpl T) × (PoolImpl.recycle later it p ≡ ok q) × Free q
      by_cell (in_use c e w held) =
          let s : Storage T =
            if is_live later c p.storage
            then put_available later c p.storage
            else put_wasted c p.storage in
          let (less, same) = returned_lem p.storage c w held later in
          let w' = returned-WellFormed p.storage c w held later in
          let left = length-erase c p.storage.used held in
          (
            record p { storage = s; has_capacity = PoolImpl.notify_one p.has_capacity },
            rw (e, recycled later p c w held) refl,
            all_free (record p { storage = s; has_capacity = PoolImpl.notify_one p.has_capacity })
                w' (omega (arith, ap (length {A = ℕ}) less, left, h.one_used)) (same ∙ h.one_cell),
          )
