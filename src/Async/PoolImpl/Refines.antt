-- ===== src/Async/PoolImpl/Refines.antt =====
-- async/detail/pool_impl.hpp: every run of a pool is one that the promise allows, answer by answer.
use resource_pool.Prelude.{ℕ, ◌<◌, ◌≡◌, refl, subst, Bool, true, some, List, [], count}
use resource_pool.Outcome.{ok}
use resource_pool.Error.{ErrorCode}
use resource_pool.TimeTraits.{TimePoint, Duration}
use resource_pool.Storage.{at}
use resource_pool.Async.Handlers.{run, Event}
use resource_pool.Async.Queue
use resource_pool.Async.Queue.{Queue, QueuedValue, ExpiringRequest}
use resource_pool.Async.PoolImpl.{
  PoolImpl, get_locked, get_unlocked, recycle, waste, set_disabled, turn_next_away, invalidate,
}
use resource_pool.Async.PoolImpl.Opened.{Opened, Opened-Initial}
use resource_pool.Storage.Access.{refill}
use resource_pool.Async.PoolImpl.Promise.{
  Action, asks, goes_on, gives_back, timer_ends, closes, turns_next, goes_unnoticed, Answer, told,
  Allows, seen, unused, Trace, rests, takes,
}
use resource_pool.Async.PoolImpl.Simulation.{Good, Kept, get_locked-Kept, get_unlocked-Kept}
use resource_pool.Async.PoolImpl.Simulation.Returns.{recycle-Kept, waste-Kept}
use resource_pool.Async.PoolImpl.Simulation.Ends.{
  cancel-Kept, set_disabled-Kept, turn_next_away-Kept, invalidate-Kept, refill-Kept,
}

-- What a pool does at an action, and what it asks of Boost.Asio. Clients give back, and write to, cells in
-- use only. `disable` is its start and the rounds of its loop, which other steps may come between.
pub data Does {ℓ} {H T : Type ℓ} (p : PoolImpl H T)
    : Action H → List (Answer H) → PoolImpl H T → Type ℓ where
  locked :
      (now : TimePoint) (io : ℕ) (h : H) (answered : Bool) (p' : PoolImpl H T) (es : List (Event H))
      → get_locked now io h p ≡ (answered, p', es)
      → Does p (asks io h) (told es) p'
  unlocked :
      (now : TimePoint) (io : ℕ) (h : H) (wait_duration : Duration) (p' : PoolImpl H T)
      (es : List (Event H))
      → get_unlocked now io h wait_duration p ≡ (p', es)
      → Does p (goes_on now io h wait_duration) (told es) p'
  recycled :
      (now : TimePoint) (c : ℕ) (p' : PoolImpl H T) (es : List (Event H))
      → 0 < count c p.storage.used
      → recycle now (at c) p ≡ ok (p', es)
      → Does p (gives_back c) (told es) p'
  wasted :
      (c : ℕ) (p' : PoolImpl H T) (es : List (Event H))
      → 0 < count c p.storage.used
      → waste (at c) p ≡ ok (p', es)
      → Does p (gives_back c) (told es) p'
  waited :
      (ec : ErrorCode) (t : TimePoint) (q : Queue H) (es : List (Event H))
      → Queue.cancel ec t p.callbacks ≡ (q, es)
      → Does p (timer_ends ec t) (told es) (record p { callbacks = q })
  disables : Does p closes [] (set_disabled p)
  turned_away :
      (p' : PoolImpl H T) (es : List (Event H))
      → p.is_disabled ≡ true
      → turn_next_away p ≡ some (p', es)
      → Does p turns_next (told es) p'
  invalidated : Does p goes_unnoticed [] (invalidate p)
  refilled :
      (now : TimePoint) (c : ℕ) (v : T)
      → 0 < count c p.storage.used
      → Does p goes_unnoticed [] (record p { storage = refill now c v p.storage })

module _ {ℓ} {H T : Type ℓ} (n : ℕ) where
  -- The promise of a pool with room for `m` requests is kept by a step, and what it rests on is, too.
  Keeps : ℕ → PoolImpl H T → Action H → List (Answer H) → PoolImpl H T → Type ℓ
  Keeps m p a answers p' =
      Allows n m (seen p) a answers (seen p') × Good n p' × (p'.callbacks.capacity ≡ m)

  kept :
      {p : PoolImpl H T} {a : Action H} (r : PoolImpl H T × List (Event H))
      → Kept n p a r
      → Keeps p.callbacks.capacity p a (told r.1) r.0
  unfolding Keeps
  kept r k = (k.allowed, k.good, k.same_capacity)

  Does-Keeps :
      {p p' : PoolImpl H T} {a : Action H} {answers : List (Answer H)}
      → Good n p
      → Does p a answers p'
      → Keeps p.callbacks.capacity p a answers p'
  Does-Keeps {p} g (locked now io h answered p' es e) =
      kept (p', es)
        (subst (λ x. Kept n p (asks io h) (x.1, x.2)) e (get_locked-Kept n p g now io h))
  Does-Keeps {p} g (unlocked now io h wait_duration p' es e) =
      kept (p', es)
        (subst (Kept n p (goes_on now io h wait_duration)) e
          (get_unlocked-Kept n p g now io h wait_duration))
  Does-Keeps {p} g (recycled now c p' es used e) =
      kept (p', es) (recycle-Kept n p g c used now p' es e)
  Does-Keeps {p} g (wasted c p' es used e) = kept (p', es) (waste-Kept n p g c used p' es e)
  Does-Keeps {p} g (waited ec t q es e) =
      kept (record p { callbacks = q }, es)
        (subst (λ x. Kept n p (timer_ends ec t) (record p { callbacks = x.0 }, x.1)) e
          (cancel-Kept n p g ec t))
  Does-Keeps {p} g disables = kept (set_disabled p, []) (set_disabled-Kept n p g)
  Does-Keeps {p} g (turned_away p' es off e) = kept (p', es) (turn_next_away-Kept n p g p' es off e)
  Does-Keeps {p} g invalidated = kept (invalidate p, []) (invalidate-Kept n p g)
  Does-Keeps {p} g (refilled now c v used) = kept (_, []) (refill-Kept n p g now c v used)

  Trace-Allows :
      (m : ℕ) {p p' : PoolImpl H T} {done : List (Action H × List (Answer H))}
      → Good n p
      → p.callbacks.capacity ≡ m
      → Trace Does p done p'
      → Trace (Allows n m) (seen p) done (seen p')
  unfolding Keeps
  Trace-Allows m g room (rests p) = rests (seen p)
  Trace-Allows m g room (takes {a} {b} {x = p} {y = q} d more) =
      let (allowed, good, same) = subst (λ k. Keeps k p a b q) room (Does-Keeps g d) in
      takes allowed (Trace-Allows m good same more)

-- Whatever threads, timers and clients do, in any order, with a pool that a constructor has made with `n`
-- cells, timers and `push` also between the rounds of `disable`, as long as clients give back and write to cells in use only: what was asked of the pool and what
-- it answered, step by step, is a run of the promise, from no cell in use and nobody waiting, and ends
-- with what is in use and who waits then.
pub refines {ℓ} :
    {H T : Type ℓ} (n : ℕ) (p p' : PoolImpl H T) (done : List (Action H × List (Answer H)))
    → Opened n p
    → Trace Does p done p'
    → Trace (Allows n p.callbacks.capacity) unused done (seen p')
refines n p p' done o run =
    let first = Opened-Initial o in
    let start : seen p ≡ unused = rw (first.none_used, first.nobody, first.enabled) refl in
    subst (λ x. Trace (Allows n p.callbacks.capacity) x done (seen p')) start
      (Trace-Allows n p.callbacks.capacity
        (record { sound = first.sound; consistent = first.consistent }) refl run)
