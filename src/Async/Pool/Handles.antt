-- ===== src/Async/Pool/Handles.antt =====
-- async/pool.hpp: the handle that comes with each answer of `get`.
use resource_pool.Prelude.{
  Bool, if◌then◌else◌, ℕ, ◌<◌, ◌≡◌, refl, sym, ap, subst, ◌∙◌, true, some, List, [], ◌∷◌, count,
  count-append, arith,
}
use resource_pool.Outcome.{ok, ok-injective}
use resource_pool.Error.{ErrorCode, success, failed, make_error_code}
use resource_pool.TimeTraits.{TimePoint, Duration}
use resource_pool.Storage.{at, singular}
use resource_pool.Storage.WellFormed.{WellFormed}
use resource_pool.Handle.{Handle, Strategy, make_handle, unusable, default_handle}
use resource_pool.Async.Handlers.{Completion, run, Event}
use resource_pool.Async.Queue.Invariant.{Consistent}
use resource_pool.Async.PoolImpl
use resource_pool.Async.PoolImpl.{PoolImpl, get_locked, get_unlocked, is_zero}
use resource_pool.Async.Queue.Posts.{completions, push-completions}
use resource_pool.Async.PoolImpl.Cases.{
  Locked, off, granted, refused, get_locked-Locked, Unlocked, expired, queued, overflow,
  get_unlocked-Unlocked,
}
use resource_pool.Async.Pool.{
  Pool, OnGetHandler, ClientCall, on_get, make_on_get_handler, get, the_impl,
}

-- An answer to a client: with the code of success, a handle of a cell that is lent out, by the pool
-- and with the strategy of the call; with an error, a handle that is unusable.
pub data Answer {ℓ} {C T : Type ℓ} (impl : ℕ) (strategy : Strategy) (handler : C)
    (p : PoolImpl (OnGetHandler C) T) : ClientCall C → Type ℓ where
  lends :
      (c : ℕ)
      → 0 < count c p.storage.used
      → Answer impl strategy handler p
          (record { handler = handler; error = success; handle = make_handle impl strategy (at c) })
  refuses :
      (ec : ErrorCode) (h : Handle)
      → failed ec ≡ true
      → unusable h ≡ true
      → Answer impl strategy handler p (record { handler = handler; error = ec; handle = h })

-- The handler that the implementation is given.
abbrev pub asked {ℓ} : {C : Type ℓ} → ℕ → Strategy → C → OnGetHandler C
asked impl strategy handler = record { impl = impl; use_strategy = strategy; handler = handler }

module _ {ℓ} {C T : Type ℓ} (impl : ℕ) (strategy : Strategy) (handler : C) where
  abbrev pub AllAnswers :
      PoolImpl (OnGetHandler C) T → List (ℕ × Completion (OnGetHandler C)) → Type ℓ
  AllAnswers p [] = Unit
  AllAnswers p ((io, c) ∷ cs) = Answer impl strategy handler p (on_get (run c)) × AllAnswers p cs

  refused-Answer :
      (p : PoolImpl (OnGetHandler C) T) (ec : ErrorCode)
      → failed ec ≡ true
      → Answer impl strategy handler p
          (on_get (record { handler = asked impl strategy handler; error = ec; cell = singular }))
  unfolding on_get unusable
  refused-Answer p ec h = rw h (refuses ec default_handle h refl)

module _ {ℓ} {C T : Type ℓ} (impl : ℕ) (strategy : Strategy) (handler : C)
    (p : PoolImpl (OnGetHandler C) T) (q : Consistent p.callbacks) (io : ℕ)
    (wait_duration : Duration) (later : TimePoint) where
  h : OnGetHandler C
  h = asked impl strategy handler

  Unlocked-AllAnswers :
      {r : PoolImpl (OnGetHandler C) T × List (Event (OnGetHandler C))}
      → Unlocked p later io h wait_duration r
      → AllAnswers impl strategy handler r.0 (completions r.1)
  unfolding h run
  Unlocked-AllAnswers (expired z) =
      (refused-Answer impl strategy handler p _ (unfold failed make_error_code in refl), tt)
  Unlocked-AllAnswers (queued z room) =
      rw (push-completions p.callbacks q io wait_duration h later) tt
  Unlocked-AllAnswers (overflow z full) =
      (refused-Answer impl strategy handler p _ (unfold failed make_error_code in refl), tt)

  -- What `get` does with the outcome of its first step.
  abbrev finish :
      Bool × PoolImpl (OnGetHandler C) T × List (Event (OnGetHandler C))
      → PoolImpl (OnGetHandler C) T × List (Event (OnGetHandler C))
  finish r = if r.0 then (r.1, r.2) else get_unlocked later io h wait_duration r.1

  Locked-AllAnswers :
      (now : TimePoint) {r : Bool × PoolImpl (OnGetHandler C) T × List (Event (OnGetHandler C))}
      → Locked p now io h r
      → AllAnswers impl strategy handler (finish r).0 (completions (finish r).1)
  unfolding h run
  Locked-AllAnswers now (off dis) =
      (refused-Answer impl strategy handler p _ (unfold failed make_error_code in refl), tt)
  Locked-AllAnswers now (granted c s on g w) = (
    unfold on_get failed in
        lends c (ground (arith, ap (count c) g.used, count-append c p.storage.used (c ∷ []))),
    tt,
  )
  Locked-AllAnswers now (refused on r) =
      Unlocked-AllAnswers (get_unlocked-Unlocked p later io h wait_duration)

  impl_answers :
      (now : TimePoint)
      → WellFormed p.storage
      → let r = PoolImpl.get now later io h wait_duration p in
        AllAnswers impl strategy handler r.0 (completions r.1)
  unfolding PoolImpl.get
  impl_answers now w = Locked-AllAnswers now (get_locked-Locked p now io h w)

  get_ok :
      (pool : Pool) (now : TimePoint)
      → pool.impl ≡ some impl
      → get pool now later io handler strategy wait_duration p
        ≡ ok (PoolImpl.get now later io h wait_duration p)
  unfolding get the_impl make_on_get_handler h
  get_ok pool now i = rw i refl

  -- Whatever `get` posts or dispatches when the storage is well-formed and the queue is consistent
  -- answers the client as the pool promises: with the code of success and a handle, of this pool and
  -- with the strategy of the call, of a cell that is lent out then; or with an error and a handle that
  -- is unusable.
  pub get_answers :
      (pool : Pool) (now : TimePoint) (p' : PoolImpl (OnGetHandler C) T)
      (events : List (Event (OnGetHandler C)))
      → pool.impl ≡ some impl
      → WellFormed p.storage
      → get pool now later io handler strategy wait_duration p ≡ ok (p', events)
      → AllAnswers impl strategy handler p' (completions events)
  get_answers pool now p' events i w e =
      subst (λ r. AllAnswers impl strategy handler r.0 (completions r.1))
        (ok-injective (sym (get_ok pool now i) ∙ e)) (impl_answers now w)
