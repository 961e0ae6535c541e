-- ===== src/Async/PoolImpl/Ownership.antt =====
-- async/detail/pool_impl.hpp: the cells that clients hold. A client returns and fills only cells that
-- it holds, and `get` gives the mutex up between its two steps.
use resource_pool.Prelude.{ℕ, ◌<◌, ◌≡◌, refl, ap, ◌∙◌, Bool, some, List, [], ◌∷◌, ◌++◌, count}
use resource_pool.Outcome.{ok}
use resource_pool.Error.{ErrorCode}
use resource_pool.TimeTraits.{TimePoint, Duration}
use resource_pool.Storage.{at}
use resource_pool.Storage.Access.{refill}
use resource_pool.Storage.Held.{Held, lent-Held, back-Held, passed-Held}
use mathlib.Core.List.{append-nil}
use resource_pool.Async.Handlers.{run, Event}
use resource_pool.Async.Queue
use resource_pool.Async.Queue.{Queue}
use resource_pool.Async.Queue.Invariant.{Consistent}
use resource_pool.Async.Queue.Posts.{completions, cells_of, push-completions}
use resource_pool.Async.PoolImpl.{
  PoolImpl, get_locked, get_unlocked, recycle, waste, disable, invalidate,
}
use resource_pool.Async.Queue.Operations.{push-Consistent}
use resource_pool.Async.PoolImpl.Opened.{Opened}
use resource_pool.Async.PoolImpl.Cases.{
  Locked, off, granted, refused, Unlocked, expired, queued, overflow,
}
use resource_pool.Async.PoolImpl.Cells.{Sound}
use resource_pool.Async.PoolImpl.Handback.{Handback, passed, freed}

-- A pool that a constructor has made with `n` cells, and the cells that clients hold: those that posted answers
-- carry, until they are returned.
pub data Clients {ℓ} {H T : Type ℓ} (n : ℕ) : PoolImpl H T → List ℕ → Type ℓ where
  opens : (p : PoolImpl H T) → Opened n p → Clients n p []
  asks :
      (now : TimePoint) (io : ℕ) (h : H) (answered : Bool) {p p' : PoolImpl H T} {held : List ℕ}
      {es : List (Event H)}
      → Clients n p held
      → get_locked now io h p ≡ (answered, p', es)
      → Clients n p' (held ++ cells_of (completions es))
  queues :
      (now : TimePoint) (io : ℕ) (h : H) (wait_duration : Duration) {p p' : PoolImpl H T}
      {held : List ℕ} {es : List (Event H)}
      → Clients n p held
      → get_unlocked now io h wait_duration p ≡ (p', es)
      → Clients n p' (held ++ cells_of (completions es))
  recycles :
      (now : TimePoint) (c : ℕ) (before after : List ℕ) {p p' : PoolImpl H T} {es : List (Event H)}
      → Clients n p (before ++ c ∷ after)
      → recycle now (at c) p ≡ ok (p', es)
      → Clients n p' ((before ++ after) ++ cells_of (completions es))
  wastes :
      (c : ℕ) (before after : List ℕ) {p p' : PoolImpl H T} {es : List (Event H)}
      → Clients n p (before ++ c ∷ after)
      → waste (at c) p ≡ ok (p', es)
      → Clients n p' ((before ++ after) ++ cells_of (completions es))
  fills :
      (now : TimePoint) (c : ℕ) (v : T) {p : PoolImpl H T} {held : List ℕ}
      → Clients n p held
      → 0 < count c held
      → Clients n (record p { storage = refill now c v p.storage }) held
  times_out :
      (ec : ErrorCode) (t : TimePoint) {p : PoolImpl H T} {q : Queue H} {held : List ℕ}
      {es : List (Event H)}
      → Clients n p held
      → Queue.cancel ec t p.callbacks ≡ (q, es)
      → Clients n (record p { callbacks = q }) (held ++ cells_of (completions es))
  closes :
      {p p' : PoolImpl H T} {held : List ℕ} {es : List (Event H)}
      → Clients n p held
      → disable p ≡ some (p', es)
      → Clients n p' (held ++ cells_of (completions es))
  invalidates :
      {p : PoolImpl H T} {held : List ℕ} → Clients n p held → Clients n (invalidate p) held

-- Exactly the cells in use are held, each once.
pub record Owned {ℓ} {H T : Type ℓ} (n : ℕ) (p : PoolImpl H T) (held : List ℕ) : Type ℓ where
  pub sound : Sound n p.storage
  pub consistent : Consistent p.callbacks
  pub holds : Held held p.storage

module _ {ℓ} {H T : Type ℓ} (n : ℕ) (p : PoolImpl H T) where
  abbrev pub After : List ℕ → PoolImpl H T × List (Event H) → Type ℓ
  After held r = Owned n r.0 (held ++ cells_of (completions r.1))

  -- A step that gives no cells and leaves the storage as it is.
  pub unchanged :
      (held : List ℕ) (q : Queue H) (cs : List ℕ)
      → Owned n p held
      → Consistent q
      → cs ≡ []
      → Owned n (record p { callbacks = q }) (held ++ cs)
  unchanged held q cs a c e =
      rw (e, append-nil held) (record { sound = a.sound; consistent = c; holds = a.holds })

  pub Locked-Owned :
      (now : TimePoint) (io : ℕ) (h : H) (held : List ℕ) {r : Bool × PoolImpl H T × List (Event H)}
      → Owned n p held
      → Locked p now io h r
      → After held (r.1, r.2)
  unfolding run
  Locked-Owned now io h held a (off dis) = unchanged held p.callbacks _ a a.consistent refl
  Locked-Owned now io h held a (refused on r) = unchanged held p.callbacks _ a a.consistent refl
  Locked-Owned now io h held a (granted c s on g w) = record {
    sound = record { well_formed = w; full = g.settings.1 ∙ a.sound.full };
    consistent = a.consistent;
    holds = lent-Held p.storage s held c g.used a.holds;
  }

  pub Unlocked-Owned :
      (now : TimePoint) (io : ℕ) (h : H) (wait_duration : Duration) (held : List ℕ)
      {r : PoolImpl H T × List (Event H)}
      → Owned n p held
      → Unlocked p now io h wait_duration r
      → After held r
  unfolding run
  Unlocked-Owned now io h wait_duration held a (expired z) =
      unchanged held p.callbacks _ a a.consistent refl
  Unlocked-Owned now io h wait_duration held a (overflow z full) =
      unchanged held p.callbacks _ a a.consistent refl
  Unlocked-Owned now io h wait_duration held a (queued z room) =
      unchanged held _ _ a (push-Consistent p.callbacks a.consistent io wait_duration h now)
        (ap cells_of (push-completions p.callbacks a.consistent io wait_duration h now))

  -- A cell that comes back is held by nobody, or by the client that it goes on to.
  pub back-Owned :
      (c : ℕ) (before after : List ℕ) {r : PoolImpl H T × List (Event H)}
      → Owned n p (before ++ c ∷ after)
      → Sound n r.0.storage
      → Consistent r.0.callbacks
      → Handback p c r
      → After (before ++ after) r
  unfolding run
  back-Owned c before after a sound consistent (passed s q es r v free same wasted e) =
      rw e (record {
        sound = sound;
        consistent = consistent;
        holds = passed-Held p.storage c before after a.holds s same;
      })
  back-Owned c before after a sound consistent (freed s q es v v' less e) =
      rw (e, append-nil (before ++ after))
        (record {
          sound = sound;
          consistent = consistent;
          holds = back-Held p.storage c before after a.holds s less;
        })
