-- ===== src/Async/Pool/Returns.antt =====
-- async/pool.hpp: the async pool under its handles, and where the cell of a handle goes when it ends.
use resource_pool.Prelude.{
  ℕ, ◌<◌, ◌≡◌, refl, sym, ap, subst, ◌∙◌, List, [], ◌∷◌, ◌++◌, count, arith,
}
use resource_pool.Outcome.{Outcome, ok, ◌>>=◌}
use resource_pool.Idle.{Idle}
use resource_pool.Error.{success, failed}
use resource_pool.TimeTraits.{TimePoint}
use resource_pool.Storage.{CellIterator, at}
use resource_pool.Storage.WellFormed.{WellFormed}
use resource_pool.Storage.Access.{load, store, InUse, in_use, load_defined, store_defined}
use resource_pool.Handle.{
  PoolReturns, Strategy, waste_strategy, recycle_strategy, make_handle, destroy,
}
use resource_pool.Handle.Lifecycle.{returns, returned_once}
use resource_pool.Async.Handlers.{Event, Completion, run, on_serve_queued_handler}
use resource_pool.Async.Queue.{ExpiringRequest}
use resource_pool.Async.Queue.Posts.{completions}
use resource_pool.Async.Queue.Refinement.{view}
use resource_pool.Async.PoolImpl
use resource_pool.Async.PoolImpl.{PoolImpl}
use resource_pool.Async.PoolImpl.Cells.{Sound, recycled-Sound, wasted-Sound}
use resource_pool.Async.PoolImpl.Handback.{
  Handback, passed, freed, recycle-Handback, waste-Handback,
}
use resource_pool.Async.Pool.{OnGetHandler, on_get}

-- A pool, and what it has asked Boost.Asio to do.
abbrev pub Logged {ℓ} : Type ℓ → Type ℓ → Type ℓ
Logged H T = PoolImpl H T × List (Event H)

module _ {ℓ} {H T : Type ℓ} where
  abbrev pub after : List (Event H) → Outcome (Logged H T) → Outcome (Logged H T)
  after log o = do (p, es) ← o; ok (p, log ++ es)

  pub waste_logged :
      (it : CellIterator) (w : Logged H T)
      → InUse it w.0.storage
      → (w' : Logged H T) × (after w.1 (PoolImpl.waste it w.0) ≡ ok w')
  waste_logged it (p, log) (in_use c e w held) =
      let (r, er, _) = waste-Handback p c w held in ((r.0, log ++ r.1), rw (e, er))

  pub recycle_logged :
      (now : TimePoint) (it : CellIterator) (w : Logged H T)
      → InUse it w.0.storage
      → (w' : Logged H T) × (after w.1 (PoolImpl.recycle now it w.0) ≡ ok w')
  recycle_logged now it (p, log) (in_use c e w held) =
      let (r, er, _) = recycle-Handback p c w held now in ((r.0, log ++ r.1), rw (e, er))

  pub store_logged :
      (it : CellIterator) (x : Idle T) (w : Logged H T)
      → InUse it w.0.storage
      → (w' : Logged H T) × ((do s ← store it x w.0.storage; ok (record w.0 { storage = s }, w.1))
          ≡ ok w')
        × InUse it w'.0.storage
        × (load it w'.0.storage ≡ ok x)
  store_logged it x (p, log) h =
      let (s, e, h', again) = store_defined it x p.storage h in
      ((record p { storage = s }, log), rw e, h', again)

-- The async pool is what a handle asks for.
abbrev pub async_returns {ℓ} : {H T : Type ℓ} → PoolReturns T (Logged H T)
async_returns = record {
  waste = λ _ it w. after w.1 (PoolImpl.waste it w.0);
  recycle = λ _ now it w. after w.1 (PoolImpl.recycle now it w.0);
  load = λ it w. load it w.0.storage;
  store = λ it x w. (do s ← store it x w.0.storage; ok (record w.0 { storage = s }, w.1));
  Lent = λ _ it w. InUse it w.0.storage;
  waste_defined = λ _ it w h. waste_logged it w h;
  recycle_defined = λ _ now it w h. recycle_logged now it w h;
  load_defined = λ _ it w h. load_defined it w.0.storage h;
  store_lem = λ _ it x w h. store_logged it x w h;
}

module _ {ℓ} {C T : Type ℓ} (p : PoolImpl (OnGetHandler C) T) (c : ℕ)
    (r : ExpiringRequest (OnGetHandler C)) (rs : List (ExpiringRequest (OnGetHandler C))) where
  -- The cell is in the hands of `r`, whose handler gets a handle of its own, and `rs` wait on.
  abbrev HandedOn : Logged (OnGetHandler C) T → Type ℓ
  HandedOn w =
      (view w.0.callbacks ≡ rs)
      × InUse (at c) w.0.storage
      × ((done : Completion (OnGetHandler C)) × (completions w.1 ≡ (r.io_context, done) ∷ [])
          × (on_get (run done) ≡ record {
            handler = r.request.handler;
            error = success;
            handle = make_handle r.request.impl r.request.use_strategy (at c);
          }))

  module _ (held : 0 < count c p.storage.used) (first : view p.callbacks ≡ r ∷ rs) where
    passed_on :
        {w : Logged (OnGetHandler C) T} → WellFormed w.0.storage → Handback p c w → HandedOn w
    unfolding on_get run failed
    passed_on ok_storage (passed s q es r' v free same wasted e) =
        let x : r' ∷ view q ≡ r ∷ rs = sym v ∙ first in
        let who : r' ≡ r = cc in
        (
          cc,
          in_use c refl ok_storage (omega (arith, held, ap (count c) same)),
          (
            on_serve_queued_handler (at c) r.request,
            subst
                (λ y.
                  completions es ≡ (y.io_context, on_serve_queued_handler (at c) y.request) ∷ [])
                who e,
            refl,
          ),
        )
    passed_on ok_storage (freed s q es v v' less e) = absurd (cc)

    returned :
        (now : TimePoint) (i : ℕ) (strategy : Strategy) (log : List (Event (OnGetHandler C)))
        → WellFormed p.storage
        → (w : Logged (OnGetHandler C) T) × (returns async_returns strategy i now (at c) (p, log)
            ≡ ok (w.0, log ++ w.1))
          × HandedOn w
    returned now i waste_strategy log ok_storage =
        let (w, e, h) = waste-Handback p c ok_storage held in
        let a =
          wasted-Sound _ p (record { well_formed = ok_storage; full = refl }) w.0 w.1 (at c) e in
        (w, rw e refl, passed_on a.well_formed h)
    returned now i recycle_strategy log ok_storage =
        let (w, e, h) = recycle-Handback p c ok_storage held now in
        let sound : Sound p.storage.nodes p.storage = record {
          well_formed = ok_storage;
          full = refl;
        } in
        let a = recycled-Sound _ p sound w.0 w.1 now (at c) e in
        (w, rw e refl, passed_on a.well_formed h)

-- When a handle of a cell in use ends, with either strategy, on a pool with a well-formed storage
-- where a client waits: the handler of the first one is the only one posted, and when it runs it gets
-- the code of success and a handle of the same cell, with the pool and the strategy of its own call;
-- that cell is lent out then, and the others wait on.
pub handed_on {ℓ} :
    {C T : Type ℓ} (p : PoolImpl (OnGetHandler C) T) (c : ℕ) (r : ExpiringRequest (OnGetHandler C))
    (rs : List (ExpiringRequest (OnGetHandler C))) (now : TimePoint) (i : ℕ) (strategy : Strategy)
    (log : List (Event (OnGetHandler C)))
    → WellFormed p.storage
    → 0 < count c p.storage.used
    → view p.callbacks ≡ r ∷ rs
    → (w : Logged (OnGetHandler C) T) × (destroy async_returns now
          (make_handle i strategy (at c))
          (p, log)
        ≡ ok (w.0, log ++ w.1))
      × (view w.0.callbacks ≡ rs)
      × InUse (at c) w.0.storage
      × ((done : Completion (OnGetHandler C)) × (completions w.1 ≡ (r.io_context, done) ∷ [])
          × (on_get (run done) ≡ record {
            handler = r.request.handler;
            error = success;
            handle = make_handle r.request.impl r.request.use_strategy (at c);
          }))
handed_on p c r rs now i strategy log ok_storage held first =
    let (w, e, h) = returned p c r rs held first now i strategy log ok_storage in
    let lent = in_use c refl ok_storage held in
    let ends = (returned_once async_returns now i strategy (at c) (p, log) lent).3 in
    (w, ends ∙ e, h.0, h.1, h.2)
