-- ===== src/Async/PoolImpl/Turns.antt =====
-- async/detail/pool_impl.hpp: one cell that comes back again and again serves those that wait in turn.
use resource_pool.Prelude.{
  ℕ, suc, ◌<◌, ◌≡◌, refl, ap, ◌∙◌, List, [], ◌∷◌, ◌++◌, map, length, count, arith,
}
use resource_pool.Outcome.{Outcome, ok, ◌>>=◌}
use resource_pool.TimeTraits.{TimePoint}
use resource_pool.Storage.{CellIterator, at}
use resource_pool.Storage.WellFormed.{WellFormed}
use resource_pool.Async.Handlers.{Completion, on_serve_queued_handler, Event}
use resource_pool.Async.Queue.{ExpiringRequest}
use resource_pool.Async.Queue.Posts.{completions, completions-append}
use resource_pool.Async.Queue.Refinement.{view}
use resource_pool.Async.PoolImpl.{PoolImpl, recycle, waste}
use resource_pool.Async.PoolImpl.Cells.{Sound, recycled-Sound, wasted-Sound}
use resource_pool.Async.PoolImpl.Handback.{
  Handback, passed, freed, recycle-Handback, waste-Handback,
}

-- How a client returns a cell.
pub data Way : Type 0 where
  by_recycle : TimePoint → Way
  by_waste : Way

-- A request is answered with the cell.
abbrev pub served {ℓ} : {H : Type ℓ} → ℕ → ExpiringRequest H → ℕ × Completion H
served c r = (r.io_context, on_serve_queued_handler (at c) r.request)

module _ {ℓ} {H T : Type ℓ} where
  abbrev give : Way → CellIterator → PoolImpl H T → Outcome (PoolImpl H T × List (Event H))
  give (by_recycle now) it p = recycle now it p
  give by_waste it p = waste it p

  -- The cell `c` is returned once after the other.
  unfoldable pub give_all : List Way → ℕ → PoolImpl H T → Outcome (PoolImpl H T × List (Event H))
  give_all [] c p = ok (p, [])
  give_all (way ∷ ways) c p = do
    (q, es) ← give way (at c) p
    (r, fs) ← give_all ways c q
    ok (r, es ++ fs)

  Given : PoolImpl H T → ℕ → Outcome (PoolImpl H T × List (Event H)) → Type ℓ
  Given p c o =
      (r : PoolImpl H T × List (Event H)) × (o ≡ ok r) × Handback p c r × WellFormed r.0.storage

  give-Given :
      (way : Way) (p : PoolImpl H T) (c : ℕ)
      → WellFormed p.storage
      → 0 < count c p.storage.used
      → Given p c (give way (at c) p)
  unfolding Given
  give-Given (by_recycle now) p c w held =
      let (r, e, h) = recycle-Handback p c w held now in
      let sound : Sound p.storage.nodes p.storage = record { well_formed = w; full = refl } in
      (r, e, h, (recycled-Sound _ p sound r.0 r.1 now (at c) e).well_formed)
  give-Given by_waste p c w held =
      let (r, e, h) = waste-Handback p c w held in
      let sound : Sound p.storage.nodes p.storage = record { well_formed = w; full = refl } in
      (r, e, h, (wasted-Sound _ p sound r.0 r.1 (at c) e).well_formed)

  Turns : List (ExpiringRequest H) → ℕ → Outcome (PoolImpl H T × List (Event H)) → Type ℓ
  Turns rs c o =
      (r : PoolImpl H T × List (Event H)) × (o ≡ ok r)
      × (completions r.1 ≡ map (served c) rs)
      × (view r.0.callbacks ≡ [])
      × (0 < count c r.0.storage.used)

  take_turn :
      (p : PoolImpl H T) (c : ℕ) (n : ℕ)
      (rest : PoolImpl H T → Outcome (PoolImpl H T × List (Event H)))
      → 0 < count c p.storage.used
      → suc n ≡ length (view p.callbacks)
      → ((q : PoolImpl H T)
          → WellFormed q.storage
          → 0 < count c q.storage.used
          → n ≡ length (view q.callbacks)
          → Turns (view q.callbacks) c (rest q))
      → {r : PoolImpl H T × List (Event H)} → Handback p c r
      → WellFormed r.0.storage
      → Turns (view p.callbacks) c (do (q, fs) ← rest r.0; ok (q, r.1 ++ fs))
  unfolding Turns
  take_turn p c n rest held many later (freed s q es v v' less e) w =
      absurd (omega (arith, many, ap (length {A = ExpiringRequest H}) v))
  take_turn p c n rest held many later (passed s q es r v free same wasted e) w =
      let ((end, fs), done, turns, nobody, still) =
        later (record p { storage = s; callbacks = q }) w (omega (arith, held, ap (count c) same))
          (omega (arith, many, ap (length {A = ExpiringRequest H}) v)) in
      (
        (end, es ++ fs),
        rw done refl,
        completions-append es fs ∙ rw (e, turns, v) refl,
        nobody,
        still,
      )

  turns_lem :
      (ways : List Way) (p : PoolImpl H T) (c : ℕ)
      → WellFormed p.storage
      → 0 < count c p.storage.used
      → length ways ≡ length (view p.callbacks)
      → Turns (view p.callbacks) c (give_all ways c p)
  unfolding give_all Turns Given
  turns_lem [] p c w held many = by_view (view p.callbacks) refl
    where
      by_view :
          (rs : List (ExpiringRequest H))
          → view p.callbacks ≡ rs
          → Turns (view p.callbacks) c (ok (p, []))
      by_view [] e = ((p, []), refl, rw e refl, e, held)
      by_view (r ∷ rs) e = absurd (omega (arith, many, ap (length {A = ExpiringRequest H}) e))
  turns_lem (way ∷ ways) p c w held many =
      let (r, e, h, w') = give-Given way p c w held in
      rw e (take_turn p c (length ways) (give_all ways c) held many (λ q. turns_lem ways q c) h w')

  -- On a pool with a well-formed storage, a cell in use that is returned as often as clients wait, each
  -- time by `recycle` or by `waste`, serves all of them: their handlers are posted with that cell in the
  -- order in which they came, and nothing else is; then nobody waits, and the cell is in use still.
  pub served_in_turn :
      (ways : List Way) (p : PoolImpl H T) (c : ℕ)
      → WellFormed p.storage
      → 0 < count c p.storage.used
      → length ways ≡ length (view p.callbacks)
      → (r : PoolImpl H T × List (Event H)) × (give_all ways c p ≡ ok r)
        × (completions r.1 ≡ map (served c) (view p.callbacks))
        × (view r.0.callbacks ≡ [])
        × (0 < count c r.0.storage.used)
  unfolding Turns
  served_in_turn ways p c w held many = turns_lem ways p c w held many
