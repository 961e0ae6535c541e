-- ===== src/Async/PoolImpl/Runs.antt =====
-- async/detail/pool_impl.hpp: all that threads and timers can do with a pool, step by step. `get` is
-- two steps, between which other threads take theirs.
use resource_pool.Prelude.{
  ℕ, ◌+◌, ◌<◌, count, ◌≡◌, refl, subst, if◌then◌else◌, Bool, true, false, some, List, [], ◌∷◌, ◌++◌,
  arith,
}
use resource_pool.Outcome.{ok}
use resource_pool.Error.{ErrorCode}
use resource_pool.TimeTraits.{TimePoint, Duration}
use resource_pool.Storage.{CellIterator}
use resource_pool.Storage.Access.{refill}
use resource_pool.Async.Handlers.{Event}
use resource_pool.Async.Queue
use resource_pool.Async.Queue.{Queue}
use resource_pool.Async.Queue.Invariant.{Consistent}
use resource_pool.Async.Queue.Refinement.{view}
use resource_pool.Async.Queue.Conservation.{tally_one, calls, waiting, calls-append}
use resource_pool.Async.PoolImpl.{
  PoolImpl, get_locked, get_unlocked, recycle, waste, disable, invalidate,
}
use resource_pool.Async.PoolImpl.Opened.{Opened, Opened-Initial}
use resource_pool.Async.PoolImpl.Answers.{
  Answers, get_locked-Answers, get_unlocked-Answers, recycle-Answers, waste-Answers, cancel-Answers,
  disable-Answers,
}

-- A call of `get` that gave the mutex up and has not gone on.
pub record Pending {ℓ} (H : Type ℓ) : Type ℓ where
  pub io_context : ℕ
  pub handler : H
  pub wait_duration : Duration

-- Clients write to cells in use only. A pool that a constructor has made with `n` cells, the handlers that `get` was called with, the calls
-- of `get` that stand between their two steps, and all that was asked of Boost.Asio.
pub data Run {ℓ} {H T : Type ℓ} (n : ℕ)
    : PoolImpl H T → List H → List (Pending H) → List (Event H) → Type ℓ where
  start : (p : PoolImpl H T) → Opened n p → Run n p [] [] []
  get_answered :
      (now : TimePoint) (io : ℕ) (h : H) {p p' : PoolImpl H T} {asked : List H}
      {between : List (Pending H)} {events es : List (Event H)}
      → Run n p asked between events
      → get_locked now io h p ≡ (true, p', es)
      → Run n p' (h ∷ asked) between (events ++ es)
  get_unanswered :
      (now : TimePoint) (io : ℕ) (h : H) (wait_duration : Duration) {p p' : PoolImpl H T}
      {asked : List H} {between : List (Pending H)} {events es : List (Event H)}
      → Run n p asked between events
      → get_locked now io h p ≡ (false, p', es)
      → Run n p'
          (h ∷ asked)
          (record { io_context = io; handler = h; wait_duration = wait_duration } ∷ between)
          (events ++ es)
  get_resumed :
      (now : TimePoint) (before after : List (Pending H)) (call : Pending H) {p p' : PoolImpl H T}
      {asked : List H} {events es : List (Event H)}
      → Run n p asked (before ++ call ∷ after) events
      → get_unlocked now call.io_context call.handler call.wait_duration p ≡ (p', es)
      → Run n p' asked (before ++ after) (events ++ es)
  recycled :
      (now : TimePoint) (it : CellIterator) {p p' : PoolImpl H T} {asked : List H}
      {between : List (Pending H)} {events es : List (Event H)}
      → Run n p asked between events
      → recycle now it p ≡ ok (p', es)
      → Run n p' asked between (events ++ es)
  wasted :
      (it : CellIterator) {p p' : PoolImpl H T} {asked : List H} {between : List (Pending H)}
      {events es : List (Event H)}
      → Run n p asked between events
      → waste it p ≡ ok (p', es)
      → Run n p' asked between (events ++ es)
  timer_ended :
      (ec : ErrorCode) (t : TimePoint) {p : PoolImpl H T} {q : Queue H} {asked : List H}
      {between : List (Pending H)} {events es : List (Event H)}
      → Run n p asked between events
      → Queue.cancel ec t p.callbacks ≡ (q, es)
      → Run n (record p { callbacks = q }) asked between (events ++ es)
  closed :
      {p p' : PoolImpl H T} {asked : List H} {between : List (Pending H)}
      {events es : List (Event H)}
      → Run n p asked between events
      → disable p ≡ some (p', es)
      → Run n p' asked between (events ++ es)
  invalidated :
      {p : PoolImpl H T} {asked : List H} {between : List (Pending H)} {events : List (Event H)}
      → Run n p asked between events
      → Run n (invalidate p) asked between events
  filled :
      (now : TimePoint) (c : ℕ) (v : T) {p : PoolImpl H T} {asked : List H}
      {between : List (Pending H)} {events : List (Event H)}
      → Run n p asked between events
      → 0 < count c p.storage.used
      → Run n (record p { storage = refill now c v p.storage }) asked between events

module _ {ℓ} {H : Type ℓ} (chosen : H → Bool) where
  abbrev pub asked_for : List H → ℕ
  asked_for [] = 0
  asked_for (h ∷ hs) = tally_one chosen h + asked_for hs

  abbrev pub open_calls : List (Pending H) → ℕ
  open_calls [] = 0
  open_calls (c ∷ cs) = tally_one chosen c.handler + open_calls cs

  open_calls-append :
      (before after : List (Pending H))
      → open_calls (before ++ after) ≡ open_calls before + open_calls after
  open_calls-append [] after = omega arith
  open_calls-append (c ∷ before) after = omega (arith, open_calls-append before after)

module _ {ℓ} {H T : Type ℓ} (chosen : H → Bool) where
  pub record Accounted (p : PoolImpl H T) (asked : List H) (between : List (Pending H))
      (events : List (Event H)) : Type 0 where
    pub consistent : Consistent p.callbacks
    pub once :
        asked_for chosen asked
        ≡ calls chosen events + waiting chosen (view p.callbacks) + open_calls chosen between

  -- A step that accounts for what it does keeps the account.
  stepped :
      (due : ℕ) {p p' : PoolImpl H T} {asked asked' : List H} {between between' : List (Pending H)}
      {events es : List (Event H)}
      → Accounted p asked between events
      → Answers chosen due p p' es
      → asked_for chosen asked' + open_calls chosen between
        ≡ asked_for chosen asked + due + open_calls chosen between'
      → Accounted p' asked' between' (events ++ es)
  stepped due {events = events} {es = es} a s e = record {
    consistent = s.consistent;
    once = omega (arith, a.once, s.conserved, e, calls-append chosen events es);
  }

  invalidate-Accounted :
      (p : PoolImpl H T) (asked : List H) (between : List (Pending H)) (events : List (Event H))
      → Accounted p asked between events
      → Accounted (invalidate p) asked between events
  unfolding invalidate
  invalidate-Accounted p asked between events a = record {
    consistent = a.consistent;
    once = a.once;
  }

  pub Run-Accounted :
      {n : ℕ} {p : PoolImpl H T} {asked : List H} {between : List (Pending H)}
      {events : List (Event H)}
      → Run n p asked between events
      → Accounted p asked between events
  Run-Accounted (start p o) =
      let a = Opened-Initial o in record { consistent = a.consistent; once = rw a.nobody refl }
  Run-Accounted (get_answered now io h {p} r e) =
      let a = Run-Accounted r in
      stepped (tally_one chosen h) a
        (subst (λ x. Answers chosen (if x.0 then tally_one chosen h else 0) p x.1 x.2) e
          (get_locked-Answers chosen p a.consistent now io h))
        (omega arith)
  Run-Accounted (get_unanswered now io h wait_duration {p} r e) =
      let a = Run-Accounted r in
      stepped 0 a
        (subst (λ x. Answers chosen (if x.0 then tally_one chosen h else 0) p x.1 x.2) e
          (get_locked-Answers chosen p a.consistent now io h))
        (omega arith)
  Run-Accounted (get_resumed now before after call {p} r e) =
      let a = Run-Accounted r in
      stepped (tally_one chosen call.handler) a
        (subst (λ x. Answers chosen (tally_one chosen call.handler) p x.0 x.1) e
          (get_unlocked-Answers chosen p a.consistent now call.io_context call.handler
            call.wait_duration))
        (omega (
          arith,
          open_calls-append chosen before (call ∷ after),
          open_calls-append chosen before after,
        ))
  Run-Accounted (recycled now it {p} {p'} {es = es} r e) =
      let a = Run-Accounted r in
      stepped 0 a (recycle-Answers chosen p a.consistent p' es now it e) (omega arith)
  Run-Accounted (wasted it {p} {p'} {es = es} r e) =
      let a = Run-Accounted r in
      stepped 0 a (waste-Answers chosen p a.consistent p' es it e) (omega arith)
  Run-Accounted (timer_ended ec t {p} r e) =
      let a = Run-Accounted r in
      stepped 0 a
        (subst (λ x. Answers chosen 0 p (record p { callbacks = x.0 }) x.1) e
          (cancel-Answers chosen p a.consistent ec t))
        (omega arith)
  Run-Accounted (closed {p} {p'} {es = es} r e) =
      let a = Run-Accounted r in
      stepped 0 a (disable-Answers chosen p a.consistent p' es e) (omega arith)
  Run-Accounted (invalidated {p} r) = invalidate-Accounted p _ _ _ (Run-Accounted r)
  Run-Accounted (filled now c v {p} r used) =
      let a = Run-Accounted r in record { consistent = a.consistent; once = a.once }

  -- In every run of a pool that a constructor has made with `n` cells, whatever the order of its steps, the
  -- handlers that `get` was called with are as many as the calls of them that were posted or
  -- dispatched, those that wait in the queue, and those of calls of `get` that have not gone on. The
  -- same holds of any chosen handlers alone, so no handler is lost or called twice.
  pub answered_once :
      (n : ℕ) (p : PoolImpl H T) (asked : List H) (between : List (Pending H))
      (events : List (Event H))
      → Run n p asked between events
      → asked_for chosen asked
        ≡ calls chosen events + waiting chosen (view p.callbacks) + open_calls chosen between
  answered_once n p asked between events r = (Run-Accounted r).once
