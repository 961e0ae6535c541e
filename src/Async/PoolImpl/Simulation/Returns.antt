-- ===== src/Async/PoolImpl/Simulation/Returns.antt =====
-- async/detail/pool_impl.hpp: a cell that comes back goes on or is free again, as the promise has it.
use resource_pool.Prelude.{ℕ, ◌<◌, ◌≡◌, sym, subst, ◌∙◌, true, List, count}
use resource_pool.Prelude.Bag.{occurrences, put-erase}
use resource_pool.Outcome.{ok, ok-injective}
use resource_pool.TimeTraits.{TimePoint}
use resource_pool.Storage.{CellIterator, Storage, at}
use resource_pool.Async.Handlers.{run, Event}
use resource_pool.Async.Queue.Deadlines.{pop-capacity}
use resource_pool.Async.Queue.Refinement.{view}
use resource_pool.Async.PoolImpl.{PoolImpl, recycle, waste}
use resource_pool.Async.PoolImpl.Cells.{recycled-Sound, wasted-Sound}
use resource_pool.Async.PoolImpl.Comeback.{
  Comeback, stored, served, recycle-Comeback, waste-Comeback,
}
use resource_pool.Async.PoolImpl.Answers.{recycle-Answers, waste-Answers}
use resource_pool.Async.PoolImpl.Handback.{
  Handback, passed, freed, recycle-Handback, waste-Handback,
}
use resource_pool.Async.PoolImpl.Promise.{gives_back, hands_on, takes_back}
use resource_pool.Async.PoolImpl.Simulation.{Good, Kept}

-- The queue that a cell leaves when it comes back.
Comeback-capacity {ℓ} :
    {H T : Type ℓ} (p : PoolImpl H T) (it : CellIterator) (taken : Storage T → Type ℓ)
    {r : PoolImpl H T × List (Event H)}
    → Comeback p it taken r
    → r.0.callbacks.capacity ≡ p.callbacks.capacity
Comeback-capacity p it taken (stored s nobody t) = pop-capacity p.callbacks
Comeback-capacity p it taken (served value s first kept) = pop-capacity p.callbacks

module _ {ℓ} {H T : Type ℓ} (n : ℕ) (p : PoolImpl H T) (a : Good n p) (c : ℕ)
    (used : 0 < count c p.storage.used) where
  back-Kept :
      {r : PoolImpl H T × List (Event H)}
      → Handback p c r
      → Good n r.0
      → r.0.callbacks.capacity ≡ p.callbacks.capacity
      → Kept n p (gives_back c) r
  unfolding run
  back-Kept (passed s q es r v free same wasted e) good capacity = record {
    allowed = rw (e, same) (hands_on c r (view q) (unfold occurrences in used) v);
    good = good;
    same_capacity = capacity;
  }
  back-Kept (freed s q es v v' less e) good capacity = record {
    allowed = rw (e, less, v' ∙ sym v) (takes_back c _ v (put-erase c p.storage.used used));
    good = good;
    same_capacity = capacity;
  }

  pub recycle-Kept :
      (now : TimePoint) (p' : PoolImpl H T) (es : List (Event H))
      → recycle now (at c) p ≡ ok (p', es)
      → Kept n p (gives_back c) (p', es)
  recycle-Kept now p' es e =
      let (r, er, h) = recycle-Handback p c a.sound.well_formed used now in
      back-Kept (subst (Handback p c) (ok-injective (sym er ∙ e)) h)
        (record {
          sound = recycled-Sound n p a.sound p' es now (at c) e;
          consistent = (recycle-Answers (λ _. true) p a.consistent p' es now (at c) e).consistent;
        })
        (Comeback-capacity p (at c) _ (recycle-Comeback p (at c) p' es now e))

  pub waste-Kept :
      (p' : PoolImpl H T) (es : List (Event H))
      → waste (at c) p ≡ ok (p', es)
      → Kept n p (gives_back c) (p', es)
  waste-Kept p' es e =
      let (r, er, h) = waste-Handback p c a.sound.well_formed used in
      back-Kept (subst (Handback p c) (ok-injective (sym er ∙ e)) h)
        (record {
          sound = wasted-Sound n p a.sound p' es (at c) e;
          consistent = (waste-Answers (λ _. true) p a.consistent p' es (at c) e).consistent;
        })
        (Comeback-capacity p (at c) _ (waste-Comeback p (at c) p' es e))
