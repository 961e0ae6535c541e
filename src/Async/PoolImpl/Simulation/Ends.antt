-- ===== src/Async/PoolImpl/Simulation/Ends.antt =====
-- async/detail/pool_impl.hpp: the end of a wait, the start and the rounds of `disable`, `invalidate` and a write to a cell do what
-- the promise allows.
use resource_pool.Prelude.{
  ℕ, ◌<◌, ◌≡◌, refl, sym, ap, subst, ◌∙◌, inl, inr, Bool-cases, arith, true, none, some, List, [],
  ◌∷◌, ◌++◌, map, count,
}
use mathlib.Core.List.{Perm}
use mathlib.Core.List.Perm
use resource_pool.Error.{ErrorCode, failed, make_error_code, disabled, get_resource_timeout}
use resource_pool.TimeTraits.{TimePoint}
use resource_pool.Storage
use resource_pool.Storage.{Storage, at}
use resource_pool.Storage.WellFormed.{write-WellFormed}
use resource_pool.Async.Handlers.{run, Event, dispatch, on_error_handler}
use resource_pool.Async.Queue
use resource_pool.Async.Queue.{Queue, QueuedValue, ExpiringRequest}
use resource_pool.Async.Queue.Operations.{pop-Consistent, cancel-Consistent}
use resource_pool.Async.Queue.Deadlines.{
  timed_out, cancel-answers, cancel-failed, cancel-capacity, pop-capacity,
}
use resource_pool.Async.Queue.Refinement.{view, still_waiting, cancel-view}
use resource_pool.Async.PoolImpl.{PoolImpl, set_disabled, turn_next_away, invalidate}
use resource_pool.Async.PoolImpl.Cells.{invalidate-Sound}
use resource_pool.Async.Queue.Posts.{completions-append, pop-completions, pop_first, pop_nobody}
use resource_pool.Storage.Access.{refill}
use resource_pool.Async.PoolImpl.Promise.{
  timer_ends, closes, turns_next, shuts, goes_unnoticed, answer, to_client, times_out,
  fails_to_wait, turns_away, stays,
}
use resource_pool.Async.PoolImpl.Simulation.{Good, Kept}

map-timed_out {ℓ} :
    {H : Type ℓ} (rs : List (ExpiringRequest H))
    → map answer (map timed_out rs)
      ≡ map (λ r. to_client r (make_error_code get_resource_timeout)) rs
unfolding run
map-timed_out [] = refl
map-timed_out (r ∷ rs) =
    ap (λ told. to_client r (make_error_code get_resource_timeout) ∷ told) (map-timed_out rs)

module _ {ℓ} {H T : Type ℓ} (n : ℕ) (p : PoolImpl H T) (a : Good n p) where
  pub cancel-Kept :
      (ec : ErrorCode) (t : TimePoint)
      → let r = Queue.cancel ec t p.callbacks in
        Kept n p (timer_ends ec t) (record p { callbacks = r.0 }, r.1)
  cancel-Kept ec t = elim (Bool-cases (failed ec)) [
    | inl failing ↦
        rw (cancel-failed p.callbacks ec t failing)
          (record { allowed = fails_to_wait ec t failing; good = a; same_capacity = refl })
    | inr fine ↦
        let left : view (Queue.cancel ec t p.callbacks).0 ≡ still_waiting t (view p.callbacks) =
          (cancel-view p.callbacks a.consistent ec t).0 ∙ rw fine refl in
        record {
          allowed = rw left (
              times_out ec t _ fine (
                subst (Perm _) (map-timed_out _)
                  (Perm.map answer (cancel-answers p.callbacks a.consistent ec t fine))));
          good = record {
            sound = a.sound;
            consistent = cancel-Consistent p.callbacks a.consistent ec t;
          };
          same_capacity = cancel-capacity p.callbacks a.consistent ec t;
        }
  ]

  pub set_disabled-Kept : Kept n p closes (set_disabled p, [])
  unfolding set_disabled
  set_disabled-Kept = record {
    allowed = shuts;
    good = record { sound = a.sound; consistent = a.consistent };
    same_capacity = refl;
  }

  pub turn_next_away-Kept :
      (p' : PoolImpl H T) (es : List (Event H))
      → p.is_disabled ≡ true
      → turn_next_away p ≡ some (p', es)
      → Kept n p turns_next (p', es)
  turn_next_away-Kept p' es off e = by_view (view p.callbacks) refl
    where
      by_view :
          (rs : List (ExpiringRequest H)) → view p.callbacks ≡ rs → Kept n p turns_next (p', es)
      by_view [] v =
          let f = (pop_nobody p.callbacks v).0 in
          let found : turn_next_away p ≡ none = unfold turn_next_away in ground (arith, f) in
          absurd (cc)
      by_view (r ∷ rs) v =
          let (first, left) = pop_first p.callbacks r rs v in
          let after : PoolImpl H T × List (Event H) = (
            record p { callbacks = (Queue.pop p.callbacks).1 },
            (Queue.pop p.callbacks).2
                ++ dispatch r.io_context (on_error_handler (make_error_code disabled) r.request)
                  ∷ [],
          ) in
          let found : turn_next_away p ≡ some after =
            unfold turn_next_away in ground (arith, first) in
          let same : some after ≡ some (p', es) = sym found ∙ e in
          let x : after ≡ (p', es) = cc in
          subst (Kept n p turns_next) x (record {
            allowed =
                rw
                  (
                    completions-append (Queue.pop p.callbacks).2 (
                        dispatch r.io_context
                          (on_error_handler (make_error_code disabled) r.request)
                        ∷ []),
                    pop-completions p.callbacks,
                    left,
                  )
                  (unfold run in turns_away r rs off v);
            good = record { sound = a.sound; consistent = pop-Consistent p.callbacks a.consistent };
            same_capacity = pop-capacity p.callbacks;
          })

  pub invalidate-Kept : Kept n p goes_unnoticed (invalidate p, [])
  unfolding invalidate
  invalidate-Kept = record {
    allowed = unfold Storage.invalidate in stays;
    good = record { sound = invalidate-Sound n p.storage a.sound; consistent = a.consistent };
    same_capacity = refl;
  }

  pub refill-Kept :
      (now : TimePoint) (c : ℕ) (v : T)
      → 0 < count c p.storage.used
      → Kept n p goes_unnoticed (record p { storage = refill now c v p.storage }, [])
  refill-Kept now c v used = record {
    allowed = stays;
    good = record {
      sound = record {
        well_formed = write-WellFormed p.storage c _ a.sound.well_formed used;
        full = a.sound.full;
      };
      consistent = a.consistent;
    };
    same_capacity = refl;
  }
