-- ===== src/Async/PoolImpl/Serving.antt =====
-- async/detail/pool_impl.hpp: how a cell that comes back goes to the first client that waits.
use resource_pool.Prelude.{
  ℕ, ◌<◌, ◌≡◌, refl, sym, ap, subst, ◌∙◌, inl, inr, if◌then◌else◌, true, false, Bool-cases, ltb,
  ◌==◌, none, some, List, [], ◌∷◌, ◌++◌, count, arith,
}
use resource_pool.Outcome.{Outcome, ok}
use resource_pool.Idle.{reset_value, update}
use resource_pool.TimeTraits.{TimePoint}
use resource_pool.Storage
use resource_pool.Storage.{Storage, CellIterator, at, deref, put_wasted, put_available}
use resource_pool.Storage.WellFormed.{WellFormed}
use resource_pool.Storage.Return.{is_live, deref_lem, is_valid_lem}
use resource_pool.Async.Handlers.{on_serve_queued_handler, Event}
use resource_pool.Async.Queue
use resource_pool.Async.Queue.{Queue, QueuedValue, ExpiringRequest}
use resource_pool.Async.Queue.Refinement.{view}
use resource_pool.Async.PoolImpl.{PoolImpl, serve, reset_cell, recycle, waste}
use resource_pool.Async.Queue.Posts.{completions, completions-append, pop-completions, pop_first}

-- What is left, and what is asked for, when the first request `r` is served with a cell and `rs` wait
-- on; the storage is `s` then.
pub data Handed {ℓ} {H T : Type ℓ} (p : PoolImpl H T) (c : ℕ) (r : ExpiringRequest H)
    (rs : List (ExpiringRequest H)) (s : Storage T)
    : Outcome (PoolImpl H T × List (Event H)) → Type ℓ where
  handed :
      (q : Queue H) (events : List (Event H))
      → view q ≡ rs
      → completions events ≡ (r.io_context, on_serve_queued_handler (at c) r.request) ∷ []
      → Handed p c r rs s (ok (record p { storage = s; callbacks = q }, events))

module _ {ℓ} {H T : Type ℓ} (p : PoolImpl H T) (c : ℕ) (w : WellFormed p.storage)
    (held : 0 < count c p.storage.used) where
  -- The cell without its value.
  abbrev pub emptied : Storage T
  emptied = record p.storage { cells = reset_value p.storage.cells c }

  reset_cell_lem : reset_cell (at c) p.storage ≡ ok emptied
  unfolding reset_cell
  reset_cell_lem = rw (deref_lem p.storage c w held) refl

  module _ (r : ExpiringRequest H) (rs : List (ExpiringRequest H))
      (first : view p.callbacks ≡ r ∷ rs) where
    value : QueuedValue H
    value = record { request = r.request; io_context = r.io_context }

    popped : Queue H
    popped = (Queue.pop p.callbacks).1

    events : List (Event H)
    events = (Queue.pop p.callbacks).2 ++ serve value (at c) ∷ []

    hand_over :
        (s : Storage T)
        → Handed p c r rs s (ok (record p { storage = s; callbacks = popped }, events))
    unfolding value popped events
    hand_over s =
        let f = pop_first p.callbacks r rs first in
        handed popped events f.1 (
          completions-append (Queue.pop p.callbacks).2 (serve value (at c) ∷ [])
          ∙ ap (λ cs. cs ++ (r.io_context, on_serve_queued_handler (at c) r.request) ∷ [])
              (pop-completions p.callbacks))

    recycle_handed :
        (now : TimePoint)
        → recycle now (at c) p
          ≡ ok (
            record p {
              storage = if is_live now c p.storage then p.storage else emptied;
              callbacks = popped;
            },
            events,
          )
    unfolding recycle value popped events
    recycle_handed now =
        let f = pop_first p.callbacks r rs first in
        elim (Bool-cases (is_live now c p.storage)) [
          | inl live ↦ rw (recycle, f.0, is_valid_lem p.storage c w held now, live) refl
          | inr dead ↦
              rw (recycle, f.0, is_valid_lem p.storage c w held now, dead, reset_cell_lem) refl
        ]

    waste_handed : waste (at c) p ≡ ok (record p { storage = emptied; callbacks = popped }, events)
    unfolding waste value popped events
    waste_handed = let f = pop_first p.callbacks r rs first in rw (waste, f.0, reset_cell_lem) refl

    -- A cell in use that comes back while clients wait goes to the first of them: its handler is posted
    -- with the cell, to its own context, and nothing else is; the others wait on. The cell stays in
    -- use, and it keeps its value exactly when `recycle` brought it and it is still valid.
    pub serve_lem :
        (now : TimePoint)
        → Handed p c r rs
            (if is_live now c p.storage then p.storage else emptied)
            (recycle now (at c) p)
          × Handed p c r rs emptied (waste (at c) p)
    serve_lem now = (
      subst (Handed p c r rs _) (sym (recycle_handed now)) (hand_over _),
      subst (Handed p c r rs _) (sym waste_handed) (hand_over _),
    )

-- A client fills a cell.
abbrev pub filled {ℓ} : {T : Type ℓ} → ℕ → T → Storage T → Storage T
filled c v s = record s { cells = update s.cells c (record (s.cells c) { value = some v }) }

module _ {ℓ} {T : Type ℓ} where
  marked_recycle :
      (later : TimePoint) (c : ℕ) (s : Storage T)
      → (s.cells c).waste_on_recycle ≡ true
      → Storage.recycle later (at c) s ≡ Storage.waste (at c) s
  unfolding Storage.recycle Storage.waste
  marked_recycle later c s marked = elim (Bool-cases (ltb c s.nodes)) [
    | inl known ↦ rw (Storage.recycle, Storage.waste, known, marked) refl
    | inr unknown ↦ rw (Storage.recycle, Storage.waste, unknown) refl
  ]

module _ {ℓ} {H T : Type ℓ} (p : PoolImpl H T) (c : ℕ) (w : WellFormed p.storage)
    (held : 0 < count c p.storage.used) (r : ExpiringRequest H) (rs : List (ExpiringRequest H))
    (first : view p.callbacks ≡ r ∷ rs) (marked : (p.storage.cells c).waste_on_recycle ≡ true) where
  -- A cell in use that is marked, as by `invalidate`, is still marked when `recycle` has handed it to
  -- a client that waits: the value that this client puts into the cell is wasted by the storage
  -- whenever the cell is recycled, however fresh it is.
  pub handed_marked :
      (now : TimePoint)
      → (p' : PoolImpl H T) × (events : List (Event H)) × (recycle now (at c) p ≡ ok (p', events))
        × ((p'.storage.cells c).value ≡ none)
        × ((later : TimePoint) (v : T)
            → Storage.recycle later (at c) (filled c v p'.storage)
              ≡ Storage.waste (at c) (filled c v p'.storage))
  handed_marked now =
      let dead : is_live now c p.storage ≡ false = unfold is_live in rw marked refl in
      let same : (c == c) ≡ true = ground arith in
      (
        record p { storage = emptied p c w held; callbacks = popped p c w held r rs first },
        events p c w held r rs first,
        recycle_handed p c w held r rs first now ∙ rw dead refl,
        rw same refl,
        λ later v. marked_recycle later c (filled c v (emptied p c w held)) (rw same marked),
      )
