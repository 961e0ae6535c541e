-- ===== src/Async/PoolImpl/Rounds.antt =====
-- async/detail/pool_impl.hpp: `disable` with nothing in between is its start and the rounds of its loop.
use resource_pool.Prelude.{
  ℕ, zero, suc, ◌≡◌, refl, ap, ◌∙◌, subst, true, some, List, [], ◌∷◌, ◌++◌, length, arith, ◌<◌,
}
use resource_pool.Error.{make_error_code, disabled}
use resource_pool.Async.Handlers.{Event, dispatch, on_error_handler}
use resource_pool.Async.Queue.{Queue, update_timer, dequeue}
use resource_pool.Async.Queue.Invariant.{update_timer_lem}
use resource_pool.Async.Queue.Operations.{pop_next}
use resource_pool.Async.Queue.Posts.{completions-append, update_timer-completions}
use resource_pool.Async.PoolImpl.{PoolImpl, drain, disable, set_disabled, turn_next_away}
use resource_pool.Async.PoolImpl.Disable.{drain-Drained, drain_empty, drain_next}
use resource_pool.Async.PoolImpl.Promise.{
  Action, closes, turns_next, Answer, told, Trace, rests, takes,
}
use resource_pool.Async.PoolImpl.Refines.{Does, disables, turned_away}

-- All that was answered along a run.
abbrev all_told {ℓ} : {A B : Type ℓ} → List (A × List B) → List B
all_told [] = []
all_told ((a, bs) ∷ done) = bs ++ all_told done

module _ {ℓ} {H T : Type ℓ} where
  -- Steps of a pool that come to what the loop comes to.
  Rounds : PoolImpl H T → Queue H → List (Event H) → Type ℓ
  Rounds p left es =
      (done : List (Action H × List (Answer H))) × Trace Does p done (record p { callbacks = left })
      × (all_told done ≡ told es)

  Rounds-step :
      (fuel : ℕ)
      → ((p : PoolImpl H T)
          → p.is_disabled ≡ true
          → length p.callbacks.ordered < fuel
          → (left : Queue H) (es : List (Event H)) → drain fuel p.callbacks ≡ some (left, es)
          → Rounds p left es)
      → (p : PoolImpl H T) → p.is_disabled ≡ true
      → length p.callbacks.ordered < suc fuel
      → (left : Queue H) (es : List (Event H)) → drain (suc fuel) p.callbacks ≡ some (left, es)
      → Rounds p left es
  unfolding Rounds
  Rounds-step fuel others p off enough left es drains = by_ordered p.callbacks.ordered refl
    where
      by_ordered : (ns : List ℕ) → p.callbacks.ordered ≡ ns → Rounds p left es
      by_ordered [] e =
          let x = drain_empty fuel p.callbacks e in
          let y : p.callbacks ≡ left = cc in
          let z : [] ≡ es = cc in
          (
            [],
            subst (λ q. Trace Does p [] (record p { callbacks = q })) y (rests p),
            ap (λ l. told l) z,
          )
      by_ordered (n ∷ rest) e =
          let q = p.callbacks in
          let u = update_timer (dequeue n rest q) in
          let first = pop_next q n rest e in
          let said =
            dispatch (q.requests n).io_context
              (on_error_handler (make_error_code disabled) (q.requests n).request) in
          let short : length u.0.ordered < fuel =
            rw (update_timer_lem (dequeue n rest q)).1
              (unfold dequeue in ground (arith, ap (length {A = ℕ}) e)) in
          let d = drain-Drained fuel u.0 short in
          let x = drain_next fuel q u.0 d.left _ _ d.events first d.returns in
          let y : d.left ≡ left = cc in
          let z : u.1 ++ said ∷ d.events ≡ es = cc in
          let next : PoolImpl H T = record p { callbacks = u.0 } in
          let found : turn_next_away p ≡ some (next, u.1 ++ said ∷ []) =
            unfold turn_next_away in ground (arith, first) in
          let (done, run, all) = others next off short d.left d.events d.returns in
          (
            (turns_next, told (u.1 ++ said ∷ [])) ∷ done,
            subst
                (λ l.
                  Trace Does p ((turns_next, told (u.1 ++ said ∷ [])) ∷ done)
                    (record p { callbacks = l }))
                y (takes (turned_away next (u.1 ++ said ∷ []) off found) run),
            rw
                (
                  completions-append u.1 (said ∷ []),
                  update_timer-completions (dequeue n rest q),
                  all,
                )
                (rw
                  (
                    ← z,
                    completions-append u.1 (said ∷ d.events),
                    update_timer-completions (dequeue n rest q),
                  )
                  refl),
          )

  rounds_lem :
      (fuel : ℕ) (p : PoolImpl H T)
      → p.is_disabled ≡ true
      → length p.callbacks.ordered < fuel
      → (left : Queue H) (es : List (Event H)) → drain fuel p.callbacks ≡ some (left, es)
      → Rounds p left es
  rounds_lem zero p off short left es e = absurd (omega arith)
  rounds_lem (suc fuel) p off short left es e =
      Rounds-step fuel (rounds_lem fuel) p off short left es e

  -- `disable` as one step is a run of its start and its rounds, with the same answers in the same order.
  disable_rounds :
      (p p' : PoolImpl H T) (es : List (Event H))
      → disable p ≡ some (p', es)
      → (done : List (Action H × List (Answer H))) × Trace Does p ((closes, []) ∷ done) p'
        × (all_told done ≡ told es)
  unfolding disable Rounds set_disabled
  disable_rounds p p' es e =
      let d = drain-Drained (suc (length p.callbacks.ordered)) p.callbacks (omega arith) in
      let (done, run, all) =
        rounds_lem (suc (length p.callbacks.ordered)) (set_disabled p) refl (omega arith) d.left
          d.events d.returns in
      let x : disable p ≡ some (record p { callbacks = d.left; is_disabled = true }, d.events) =
        rw (disable, d.returns) refl in
      let m : PoolImpl H T = record p { callbacks = d.left; is_disabled = true } in
      let y : m ≡ p' = cc in
      let z : d.events ≡ es = cc in
      (
        done,
        subst (Trace Does p ((closes, []) ∷ done)) y (takes disables run),
        all ∙ ap (λ l. told l) z,
      )
