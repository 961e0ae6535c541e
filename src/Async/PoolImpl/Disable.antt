-- ===== src/Async/PoolImpl/Disable.antt =====
-- async/detail/pool_impl.hpp: the loop of `disable`, and what it tells the clients that wait.
use resource_pool.Prelude.{
  ◌+◌, Bool, ℕ, zero, suc, ◌<◌, ◌≡◌, refl, sym, ap, ap₂, ◌∙◌, true, none, some, Option, List, [],
  ◌∷◌, ◌++◌, map, length, arith,
}
use resource_pool.Error.{make_error_code, disabled}
use resource_pool.Async.Handlers.{
  Completion, run, on_error_handler, Event, post, dispatch, cancel_timer, set_timer, wait_timer,
}
use resource_pool.Async.Queue.{Queue, QueuedValue, ExpiringRequest, update_timer, pop, dequeue}
use resource_pool.Async.Queue.Invariant.{
  Consistent, update_timer_lem, update_timer-Consistent, dequeue-Consistent,
}
use resource_pool.Async.Queue.Operations.{pop_empty, pop_next}
use resource_pool.Async.Queue.Refinement.{view, update_timer-view}
use resource_pool.Async.Queue.Conservation.{tally_one, calls, waiting}
use resource_pool.Async.Queue.Posts.{completions, completions-append, update_timer-completions}
use resource_pool.Async.PoolImpl.{PoolImpl, drain, disable}

module _ {ℓ} {H : Type ℓ} where
  -- The answer of `disable` to a waiting request.
  abbrev pub turn_away : ExpiringRequest H → ℕ × Completion H
  turn_away r = (r.io_context, on_error_handler (make_error_code disabled) r.request)

-- What the loop leaves: nothing waits, and every request was turned away in the order they came.
pub record Drained {ℓ} {H : Type ℓ} (q : Queue H) (r : Option (Queue H × List (Event H)))
    : Type ℓ where
  pub left : Queue H
  pub events : List (Event H)
  pub returns : r ≡ some (left, events)
  pub nobody : left.ordered ≡ []
  pub all : completions events ≡ map turn_away (view q)
  pub consistent : Consistent q → Consistent left
  pub same_capacity : left.capacity ≡ q.capacity

module _ {ℓ} {H : Type ℓ} where
  pub drain_empty : (fuel : ℕ) (q : Queue H) → q.ordered ≡ [] → drain (suc fuel) q ≡ some (q, [])
  unfolding drain
  drain_empty fuel q e = let x = pop_empty q e in ground arith

  pub drain_next :
      (fuel : ℕ) (q q' left : Queue H) (value : QueuedValue H) (es later : List (Event H))
      → pop q ≡ (some value, q', es)
      → drain fuel q' ≡ some (left, later)
      → drain (suc fuel) q
        ≡ some (
          left,
          es
              ++ dispatch value.io_context
                  (on_error_handler (make_error_code disabled) value.request)
                ∷ later,
        )
  unfolding drain
  drain_next fuel q q' left value es later e f = ground arith

  drain_step :
      (fuel : ℕ)
      → ((q : Queue H) → length q.ordered < fuel → Drained q (drain fuel q))
      → (q : Queue H) → length q.ordered < suc fuel
      → Drained q (drain (suc fuel) q)
  drain_step fuel ih q enough = by_ordered q.ordered refl
    where
      by_ordered : (ns : List ℕ) → q.ordered ≡ ns → Drained q (drain (suc fuel) q)
      by_ordered [] e = record {
        left = q;
        events = [];
        returns = drain_empty fuel q e;
        nobody = e;
        all = rw e refl;
        consistent = λ c. c;
        same_capacity = refl;
      }
      by_ordered (n ∷ rest) e =
          let shut = dequeue n rest q in
          let v : view (update_timer shut).0 ≡ map q.requests rest =
            update_timer-view shut ∙ unfold dequeue in refl in
          let d = ih (update_timer shut).0 (
            rw (update_timer_lem shut).1
              (unfold dequeue in ground (arith, ap (length {A = ℕ}) e))) in
          record {
            left = d.left;
            events =
                (update_timer shut).1
                ++ dispatch (q.requests n).io_context
                    (on_error_handler (make_error_code disabled) (q.requests n).request)
                  ∷ d.events;
            returns = drain_next fuel q _ d.left _ _ d.events (pop_next q n rest e) d.returns;
            nobody = d.nobody;
            all =
                completions-append (update_timer shut).1 _
                ∙ ap₂ (λ cs ds. cs ++ turn_away (q.requests n) ∷ ds) (update_timer-completions shut)
                    (d.all ∙ ap (map turn_away) v)
                ∙ ap (λ ns. map turn_away (map q.requests ns)) (sym e);
            consistent =
                λ c. d.consistent (update_timer-Consistent shut (dequeue-Consistent q c n rest e));
            same_capacity = d.same_capacity ∙ rw (update_timer_lem shut).1 (unfold dequeue in refl);
          }

  pub drain-Drained : (fuel : ℕ) (q : Queue H) → length q.ordered < fuel → Drained q (drain fuel q)
  drain-Drained zero q short = absurd (omega arith)
  drain-Drained (suc fuel) q enough = drain_step fuel (drain-Drained fuel) q enough

module _ {ℓ} {H T : Type ℓ} (p : PoolImpl H T) where
  -- Where no handler runs in place, and no other step comes between, `disable` leaves a disabled pool in which no request waits; it turns away
  -- every request that waited, each once, in the order they came, leaves the storage as it is, and keeps
  -- a consistent queue consistent.
  pub disable_lem :
      (p' : PoolImpl H T) × (events : List (Event H)) × (disable p ≡ some (p', events))
      × (p'.is_disabled ≡ true)
      × (view p'.callbacks ≡ [])
      × (p'.storage ≡ p.storage)
      × (completions events ≡ map turn_away (view p.callbacks))
      × (Consistent p.callbacks → Consistent p'.callbacks)
  unfolding disable
  disable_lem =
      let d = drain-Drained (suc (length p.callbacks.ordered)) p.callbacks (omega arith) in
      (
        record p { callbacks = d.left; is_disabled = true },
        d.events,
        ap (λ r. closed r) d.returns,
        refl,
        ap (map d.left.requests) d.nobody,
        refl,
        d.all,
        d.consistent,
      )
    where
      closed : Option (Queue H × List (Event H)) → Option (PoolImpl H T × List (Event H))
      closed r = elim r [
        | none ↦ none
        | some (callbacks, events) ↦
            some (record p { callbacks = callbacks; is_disabled = true }, events)
      ]

  pub disable-capacity :
      (p' : PoolImpl H T) (events : List (Event H))
      → disable p ≡ some (p', events)
      → p'.callbacks.capacity ≡ p.callbacks.capacity
  unfolding disable
  disable-capacity p' events e =
      let d = drain-Drained (suc (length p.callbacks.ordered)) p.callbacks (omega arith) in
      by_rest _ d.returns d.same_capacity e
    where
      by_rest :
          (o : Option (Queue H × List (Event H))) {left : Queue H} {all : List (Event H)}
          → o ≡ some (left, all)
          → left.capacity ≡ p.callbacks.capacity
          → (elim o as (λ _. Option (PoolImpl H T × List (Event H))) [
            | none ↦ none
            | some (callbacks, es) ↦
                some (record p { callbacks = callbacks; is_disabled = true }, es)
          ])
            ≡ some (p', events)
          → p'.callbacks.capacity ≡ p.callbacks.capacity
      by_rest none d same f = absurd (cc)
      by_rest (some (callbacks, es)) {left} {all} d same f =
          let x : callbacks ≡ left = cc in
          let y : p'.callbacks ≡ callbacks = cc in ap (λ q. q.capacity) (y ∙ x) ∙ same

module _ {ℓ} {H : Type ℓ} (chosen : H → Bool) where
  unfoldable pub calls_of : List (ℕ × Completion H) → ℕ
  calls_of [] = 0
  calls_of ((io, done) ∷ cs) = tally_one chosen (run done).handler + calls_of cs

  pub calls-completions : (es : List (Event H)) → calls chosen es ≡ calls_of (completions es)
  unfolding calls_of
  calls-completions [] = refl
  calls-completions (post io c ∷ es) = omega (arith, calls-completions es)
  calls-completions (dispatch io c ∷ es) = omega (arith, calls-completions es)
  calls-completions (cancel_timer io ∷ es) = calls-completions es
  calls-completions (set_timer io t ∷ es) = calls-completions es
  calls-completions (wait_timer io t ∷ es) = calls-completions es

  pub calls-turn_away :
      (rs : List (ExpiringRequest H)) → calls_of (map turn_away rs) ≡ waiting chosen rs
  unfolding calls_of run
  calls-turn_away [] = refl
  calls-turn_away (r ∷ rs) = omega (arith, calls-turn_away rs)
