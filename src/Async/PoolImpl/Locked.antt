-- ===== src/Async/PoolImpl/Locked.antt =====
-- async/detail/pool_impl.hpp: `disable` dispatches handlers while it holds the mutex of the pool.
use resource_pool.Prelude.{
  ℕ, zero, suc, ◌<◌, ◌≡◌, ◌||◌, if◌then◌else◌, refl, ap, ◌∙◌, Bool, true, false, some, Option, List,
  [], ◌∷◌, ◌++◌, map, length, arith,
}
use resource_pool.Outcome.{Outcome, ok, undefined, ◌>>=◌}
use resource_pool.Error.{make_error_code, disabled}
use resource_pool.Async.Handlers.{Event, dispatch, on_error_handler}
use resource_pool.Async.Queue.{Queue, QueuedValue, ExpiringRequest, update_timer, pop, dequeue}
use resource_pool.Async.Queue.Invariant.{Consistent, update_timer_lem}
use resource_pool.Async.Queue.Operations.{pop_empty, pop_next}
use resource_pool.Async.Queue.Posts.{completions}
use resource_pool.Async.Queue.Refinement.{view, update_timer-view}
use resource_pool.Async.PoolImpl.{PoolImpl, drain, drain_locked, disable_locked}
use resource_pool.Async.PoolImpl.Disable.{turn_away, drain-Drained, drain_empty, drain_next}

module _ {ℓ} {H : Type ℓ} (relocks : ℕ → H → Bool) where
  -- Whether the handler of one of these requests runs in place when it is dispatched, and calls the pool.
  abbrev pub any_relocks : List (ExpiringRequest H) → Bool
  any_relocks [] = false
  any_relocks (r ∷ rs) = relocks r.io_context r.request || any_relocks rs

  locked_empty :
      (fuel : ℕ) (q : Queue H)
      → q.ordered ≡ []
      → drain_locked relocks (suc fuel) q ≡ some (ok (q, []))
  unfolding drain_locked
  locked_empty fuel q e = let x = pop_empty q e in ground arith

  locked_next :
      (fuel : ℕ) (q q' left : Queue H) (value : QueuedValue H) (es later : List (Event H))
      (more : Bool)
      → pop q ≡ (some value, q', es)
      → drain_locked relocks fuel q' ≡ some (if more then undefined else ok (left, later))
      → drain_locked relocks (suc fuel) q
        ≡ some (
            if relocks value.io_context value.request || more
            then undefined
            else ok (
              left,
              es
                  ++ dispatch value.io_context
                      (on_error_handler (make_error_code disabled) value.request)
                    ∷ later,
            ))
  unfolding drain_locked
  locked_next fuel q q' left value es later true e f = ground arith
  locked_next fuel q q' left value es later false e f = ground arith

  -- The loop agrees with the one that leaves the handlers to their contexts, up to the first such handler.
  Agrees : ℕ → Queue H → Type ℓ
  Agrees fuel q =
      (left : Queue H) (es : List (Event H))
      → drain fuel q ≡ some (left, es)
      → drain_locked relocks fuel q
        ≡ some (if any_relocks (view q) then undefined else ok (left, es))

  Agrees-step :
      (fuel : ℕ)
      → ((q : Queue H) → length q.ordered < fuel → Agrees fuel q)
      → (q : Queue H) → length q.ordered < suc fuel
      → Agrees (suc fuel) q
  unfolding Agrees
  Agrees-step fuel others q enough left es drains = by_ordered q.ordered refl
    where
      by_ordered :
          (ns : List ℕ)
          → q.ordered ≡ ns
          → drain_locked relocks (suc fuel) q
            ≡ some (if any_relocks (view q) then undefined else ok (left, es))
      by_ordered [] e =
          let x = drain_empty fuel q e in
          let y = locked_empty fuel q e in
          let v : any_relocks (view q) ≡ false = rw e refl in
          rw (v, y) (let z : (q, []) ≡ (left, es) = cc in ap (λ r. some (ok r)) z)
      by_ordered (n ∷ rest) e =
          let q' = (update_timer (dequeue n rest q)).0 in
          let first = pop_next q n rest e in
          let short : length q'.ordered < fuel =
            rw (update_timer_lem (dequeue n rest q)).1
              (unfold dequeue in ground (arith, ap (length {A = ℕ}) e)) in
          let d = drain-Drained fuel q' short in
          let v : view q' ≡ map q.requests rest =
            update_timer-view (dequeue n rest q) ∙ unfold dequeue in refl in
          let x = drain_next fuel q q' d.left _ _ d.events first d.returns in
          let y =
            locked_next fuel q q' d.left _ _ d.events (any_relocks (view q')) first
              (others q' short d.left d.events d.returns) in
          let w : any_relocks (view q)
              ≡ relocks (q.requests n).io_context (q.requests n).request || any_relocks (view q') =
            rw (v, e) refl in
          rw (w, y)
            (ap
              (λ r. some (
                if relocks (q.requests n).io_context (q.requests n).request || any_relocks (view q')
                then undefined
                else ok r))
              (let z = x in cc))

  drain_locked_lem : (fuel : ℕ) (q : Queue H) → length q.ordered < fuel → Agrees fuel q
  drain_locked_lem zero q short = absurd (omega arith)
  drain_locked_lem (suc fuel) q short = Agrees-step fuel (drain_locked_lem fuel) q short

module _ {ℓ} {H T : Type ℓ} (relocks : ℕ → H → Bool) (p : PoolImpl H T) where
  -- With no other step in between, `disable` comes to its end within as many rounds as requests wait, and one
  -- more. If the handler of a request that waits runs in place when it is dispatched and calls the pool, then
  -- the mutex is locked twice, which is undefined behaviour. If there is no such handler the pool is
  -- disabled then and nobody waits; every request that waited was turned away, each once, in the order they
  -- came; the storage is as it was, and the queue is consistent if it was.
  pub disable_locked_lem :
      (p' : PoolImpl H T) × (events : List (Event H)) × (disable_locked relocks p
        ≡ some (if any_relocks relocks (view p.callbacks) then undefined else ok (p', events)))
      × (p'.is_disabled ≡ true)
      × (view p'.callbacks ≡ [])
      × (p'.storage ≡ p.storage)
      × (completions events ≡ map turn_away (view p.callbacks))
      × (Consistent p.callbacks → Consistent p'.callbacks)
  unfolding disable_locked Agrees
  disable_locked_lem =
      let d = drain-Drained (suc (length p.callbacks.ordered)) p.callbacks (omega arith) in
      let x =
        drain_locked_lem relocks (suc (length p.callbacks.ordered)) p.callbacks (omega arith) d.left
          d.events d.returns in
      (
        record p { callbacks = d.left; is_disabled = true },
        d.events,
        rw (disable_locked, x) (by_test (any_relocks relocks (view p.callbacks)) d.left d.events),
        refl,
        ap (map d.left.requests) d.nobody,
        refl,
        d.all,
        d.consistent,
      )
    where
      by_test :
          (bad : Bool) (left : Queue H) (es : List (Event H))
          → ◌≡◌ {A = Option (Outcome (PoolImpl H T × List (Event H)))}
              (some (do
                (callbacks, events) ← (if bad then undefined else ok (left, es))
                ok (record p { callbacks = callbacks; is_disabled = true }, events)))
              (some (
                if bad
                then undefined
                else ok (record p { callbacks = left; is_disabled = true }, es)))
      by_test true left es = refl
      by_test false left es = refl
