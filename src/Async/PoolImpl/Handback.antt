-- ===== src/Async/PoolImpl/Handback.antt =====
-- async/detail/pool_impl.hpp: what a `recycle` or `waste` of a cell in use does, whoever waits.
use resource_pool.Prelude.{
  ap, ◌∙◌, ℕ, ◌<◌, ◌≡◌, refl, sym, inl, inr, if◌then◌else◌, Bool-cases, List, [], ◌∷◌, count, erase,
}
use resource_pool.Outcome.{Outcome, ok}
use resource_pool.TimeTraits.{TimePoint, epoch}
use resource_pool.Storage.{Storage, at, put_wasted, put_available}
use resource_pool.Storage.WellFormed.{WellFormed}
use resource_pool.Storage.Return.{is_live, returned_lem, waste_lem, recycle_lem}
use resource_pool.Async.Handlers.{on_serve_queued_handler, Event}
use resource_pool.Async.Queue
use resource_pool.Async.Queue.{Queue, ExpiringRequest}
use resource_pool.Async.Queue.Posts.{completions, pop-completions, pop_nobody}
use resource_pool.Async.Queue.Refinement.{view}
use resource_pool.Async.PoolImpl.{PoolImpl, recycle, waste}
use resource_pool.Async.PoolImpl.Serving.{Handed, handed, emptied, serve_lem}

-- The cell goes on to the first client that waits and stays in use; or nobody waits, and it is free
-- again.
pub data Handback {ℓ} {H T : Type ℓ} (p : PoolImpl H T) (c : ℕ)
    : PoolImpl H T × List (Event H) → Type ℓ where
  passed :
      (s : Storage T) (q : Queue H) (es : List (Event H)) (r : ExpiringRequest H)
      → view p.callbacks ≡ r ∷ view q
      → s.available ≡ p.storage.available
      → s.used ≡ p.storage.used
      → s.wasted ≡ p.storage.wasted
      → completions es ≡ (r.io_context, on_serve_queued_handler (at c) r.request) ∷ []
      → Handback p c (record p { storage = s; callbacks = q }, es)
  freed :
      (s : Storage T) (q : Queue H) (es : List (Event H))
      → view p.callbacks ≡ []
      → view q ≡ []
      → s.used ≡ erase c p.storage.used
      → completions es ≡ []
      → Handback p c (record p { storage = s; callbacks = q }, es)

module _ {ℓ} {H T : Type ℓ} (p : PoolImpl H T) (c : ℕ) (w : WellFormed p.storage)
    (held : 0 < count c p.storage.used) where
  Back : Outcome (PoolImpl H T × List (Event H)) → Type ℓ
  Back o = (r : PoolImpl H T × List (Event H)) × (o ≡ ok r) × Handback p c r

  Handed-Back :
      (r : ExpiringRequest H) (rs : List (ExpiringRequest H)) (s : Storage T)
      (o : Outcome (PoolImpl H T × List (Event H)))
      → view p.callbacks ≡ r ∷ rs
      → (s.available ≡ p.storage.available)
        × (s.used ≡ p.storage.used)
        × (s.wasted ≡ p.storage.wasted)
      → Handed p c r rs s o
      → Back o
  unfolding Back
  Handed-Back r rs s o first same (handed q es v done) = (
    (record p { storage = s; callbacks = q }, es),
    refl,
    passed s q es r (first ∙ ap (λ l. r ∷ l) (sym v)) same.0 same.1 same.2 done,
  )

  module _ (nobody : view p.callbacks ≡ []) where
    abbrev left : Queue H
    left = (Queue.pop p.callbacks).1

    recycle_alone :
        (now : TimePoint)
        → recycle now (at c) p
          ≡ ok (
            record p {
              storage =
                  if is_live now c p.storage
                  then put_available now c p.storage
                  else put_wasted c p.storage;
              callbacks = left;
            },
            (Queue.pop p.callbacks).2,
          )
    unfolding recycle
    recycle_alone now =
        rw (recycle, (pop_nobody p.callbacks nobody).0, recycle_lem p.storage c w held now) refl

    waste_alone :
        waste (at c) p
        ≡ ok (
          record p { storage = put_wasted c p.storage; callbacks = left },
          (Queue.pop p.callbacks).2,
        )
    unfolding waste
    waste_alone = rw (waste, (pop_nobody p.callbacks nobody).0, waste_lem p.storage c w held) refl

  wasted_used : (put_wasted c p.storage).used ≡ erase c p.storage.used
  unfolding put_wasted
  wasted_used = refl

  kept_lists :
      (now : TimePoint)
      → let s = if is_live now c p.storage then p.storage else emptied p c w held in
        (s.available ≡ p.storage.available)
        × (s.used ≡ p.storage.used)
        × (s.wasted ≡ p.storage.wasted)
  kept_lists now = elim (Bool-cases (is_live now c p.storage)) [
    | inl live ↦ rw live (refl, refl, refl)
    | inr dead ↦ rw dead (refl, refl, refl)
  ]

  pub recycle-Handback :
      (now : TimePoint)
      → (r : PoolImpl H T × List (Event H)) × (recycle now (at c) p ≡ ok r) × Handback p c r
  unfolding Back
  recycle-Handback now = by_view (view p.callbacks) refl
    where
      by_view :
          (rs : List (ExpiringRequest H)) → view p.callbacks ≡ rs → Back (recycle now (at c) p)
      by_view [] e = (
        _,
        recycle_alone e now,
        freed _ _ _ e (pop_nobody p.callbacks e).1 (returned_lem p.storage c w held now).0
            (pop-completions p.callbacks),
      )
      by_view (r ∷ rs) e =
          Handed-Back r rs _ _ e (kept_lists now) (serve_lem p c w held r rs e now).0

  pub waste-Handback :
      (r : PoolImpl H T × List (Event H)) × (waste (at c) p ≡ ok r) × Handback p c r
  unfolding Back
  waste-Handback = by_view (view p.callbacks) refl
    where
      by_view : (rs : List (ExpiringRequest H)) → view p.callbacks ≡ rs → Back (waste (at c) p)
      by_view [] e = (
        _,
        waste_alone e,
        freed _ _ _ e (pop_nobody p.callbacks e).1 wasted_used (pop-completions p.callbacks),
      )
      by_view (r ∷ rs) e =
          Handed-Back r rs (emptied p c w held) _ e (refl, refl, refl)
            (serve_lem p c w held r rs e epoch).1
