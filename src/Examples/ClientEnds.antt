-- ===== src/Examples/ClientEnds.antt =====
-- examples/async on the asynchronous pool: what a client's call leaves of the pool and asks of Boost.Asio.
use resource_pool.Prelude.{
  ℕ, ◌<◌, ◌≡◌, refl, sym, ap, subst, ◌∙◌, inl, inr, Bool-cases, true, if◌then◌else◌, [], count,
}
use resource_pool.Prelude.Int.{ℤ}
use resource_pool.Outcome.{Outcome, ok, >>=-eq-ok, ok-injective}
use resource_pool.Error.{success, failed}
use resource_pool.Idle.{Idle, update}
use resource_pool.TimeTraits.{TimePoint}
use resource_pool.Storage.{at, deref}
use resource_pool.Storage.WellFormed.{WellFormed}
use resource_pool.Storage.Access.{store, InUse, in_use, load_defined}
use resource_pool.Handle.{Strategy, waste_strategy, recycle_strategy, make_handle}
use resource_pool.Handle.Lifecycle.{returns}
use resource_pool.Async.Queue.Invariant.{Consistent}
use resource_pool.Async.PoolImpl.{PoolImpl}
use resource_pool.Async.PoolImpl.Answers.{recycle-Answers, waste-Answers}
use resource_pool.Async.PoolImpl.Cells.{Sound, recycled-Sound, wasted-Sound}
use resource_pool.Async.PoolImpl.Handback.{Handback, recycle-Handback, waste-Handback}
use resource_pool.Async.Pool.Returns.{Logged, async_returns}
use resource_pool.Examples.{count_from_min, Streams, on_get, strand_on_get}
use resource_pool.Examples.Returned.{Ending, GivenBack, clients_give_back}

module _ {ℓ} {H T : Type ℓ} (n : ℕ) (p : PoolImpl H T) (a : Sound n p.storage)
    (k : Consistent p.callbacks) (c : ℕ) (used : 0 < count c p.storage.used) where
  -- The pool with other values in its cells.
  abbrev pub with_cells : (ℕ → Idle T) → PoolImpl H T
  with_cells cells = record p { storage = record p.storage { cells = cells } }

  -- The cell has come back, whatever was written to it before.
  pub record Back (r : Logged H T) : Type ℓ where
    pub sound : Sound n r.0.storage
    pub consistent : Consistent r.0.callbacks
    pub cells : ℕ → Idle T
    pub handback : Handback (with_cells cells) c r

  abbrev pub Backs : Outcome (Logged H T) → Type ℓ
  Backs o = (r : Logged H T) × (o ≡ ok r) × Back r

  module _ (cells : ℕ → Idle T) (w : WellFormed (with_cells cells).storage) where
    with_cells-Sound : Sound n (with_cells cells).storage
    with_cells-Sound = record { well_formed = w; full = a.full }

    recycle-Backs :
        (i : ℕ) (later : TimePoint)
        → Backs (async_returns.recycle i later (at c) (with_cells cells, []))
    recycle-Backs i later =
        let q = with_cells cells in
        let (r, e, h) = recycle-Handback q c w used later in
        (
          r,
          rw e refl,
          record {
            sound = recycled-Sound n q with_cells-Sound r.0 r.1 later (at c) e;
            consistent = (recycle-Answers (λ _. true) q k r.0 r.1 later (at c) e).consistent;
            cells = cells;
            handback = h;
          },
        )

    waste-Backs : (i : ℕ) → Backs (async_returns.waste i (at c) (with_cells cells, []))
    waste-Backs i =
        let q = with_cells cells in
        let (r, e, h) = waste-Handback q c w used in
        (
          r,
          rw e refl,
          record {
            sound = wasted-Sound n q with_cells-Sound r.0 r.1 (at c) e;
            consistent = (waste-Answers (λ _. true) q k r.0 r.1 (at c) e).consistent;
            cells = cells;
            handback = h;
          },
        )

    returns-Backs :
        (strategy : Strategy) (i : ℕ) (later : TimePoint)
        → Backs (returns async_returns strategy i later (at c) (with_cells cells, []))
    returns-Backs waste_strategy i later = waste-Backs i
    returns-Backs recycle_strategy i later = recycle-Backs i later

  -- Writes to the cell change nothing but its value, and nothing is asked for yet.
  OnlyCells : Logged H T → Type ℓ
  OnlyCells w = (cells : ℕ → Idle T) × (w ≡ (with_cells cells, []))

  still_only_cells :
      (x : Idle T) (w w' : Logged H T)
      → InUse (at c) w.0.storage
      → OnlyCells w
      → async_returns.store (at c) x w ≡ ok w'
      → OnlyCells w'
  unfolding OnlyCells store
  still_only_cells x w w' lent (cells, same) e =
      let (s, es, r) = >>=-eq-ok (store (at c) x w.0.storage) _ e in
      let (d, ed, rs) = >>=-eq-ok (deref (at c) w.0.storage) _ es in
      let values = update w.0.storage.cells d x in
      let stored : Logged H T → Logged H T =
        λ v. (record v.0 { storage = record v.0.storage { cells = values } }, v.1) in
      (
        values,
        sym (ok-injective r)
            ∙ ap (λ t. (record w.0 { storage = t }, w.1)) (sym (ok-injective rs))
            ∙ ap stored same,
      )

  module _ (streams : Streams T) (i : ℕ) (strategy : Strategy) (now later : TimePoint) (opened : T)
      (reading : TimePoint) (stamp : ℤ) (early : count_from_min reading ≡ ok stamp) where
    open streams use {good}

    given_back-Backs :
        (file : T) (w : Logged H T)
        → InUse (at c) w.0.storage
        → OnlyCells w
        → Backs (
            if good file
            then async_returns.recycle i later (at c) w
            else returns async_returns strategy i later (at c) w)
    unfolding OnlyCells
    given_back-Backs file w (in_use d e wf held) (cells, same) =
        let ok_storage = subst (λ v. WellFormed v.0.storage) same wf in
        subst
          (λ v. Backs (
            if good file
            then async_returns.recycle i later (at c) v
            else returns async_returns strategy i later (at c) v))
          (sym same)
          (elim (Bool-cases (good file)) [
            | inl fine ↦ rw fine (recycle-Backs cells ok_storage i later)
            | inr broken ↦ rw broken (returns-Backs cells ok_storage strategy i later)
          ])

    Ending-Backs :
        (x : Idle T) (o : Outcome (Logged H T))
        → Ending async_returns streams i strategy
            (at c)
            later
            reading
            stamp
            early
            OnlyCells
            still_only_cells
            x
            opened
            (p, [])
            o
        → Backs o
    unfolding Ending GivenBack
    Ending-Backs x o (inl (empty, broken, e)) =
        subst Backs (sym e) (returns-Backs p.storage.cells a.well_formed strategy i later)
    Ending-Backs x o (inr (w, lent, only, _, e)) =
        subst Backs (sym e) (given_back-Backs _ w lent only)

    -- A client that is called with a handle of a cell in use gives the cell back, and nothing else happens
    -- to the pool.
    pub clients_come_back :
        let h = make_handle i strategy (at c) in
        Backs (on_get async_returns streams now later opened reading success h (p, []))
        × Backs (strand_on_get async_returns streams now later opened reading success h (p, []))
    unfolding OnlyCells failed
    clients_come_back =
        let lent : InUse (at c) p.storage = in_use c refl a.well_formed used in
        let (x, loaded) = load_defined (at c) p.storage lent in
        let all =
          clients_give_back async_returns streams i strategy (at c) OnlyCells still_only_cells now
            later opened reading stamp early success (p, []) x refl lent (p.storage.cells, refl)
            loaded in
        (Ending-Backs x _ all.0, Ending-Backs x _ all.1)
