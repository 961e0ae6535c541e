-- ===== src/Async/PoolImpl/Simulation.antt =====
-- async/detail/pool_impl.hpp: both steps of `get` do what the promise allows.
pub mod Returns
pub mod Ends
use resource_pool.Prelude.{
  ℕ, ◌+◌, ◌<◌, ◌≤◌, ◌≡◌, refl, sym, ap, subst, ◌∙◌, inl, inr, Bool, Bool-cases, Option-cases, true,
  false, none, some, ltb, if◌then◌else◌, List, [], ◌∷◌, ◌++◌, map, length, length-append, count,
  arith,
}
use mathlib.Core.List.{Perm}
use mathlib.Core.List.Perm
use resource_pool.Prelude.Bag.{of_list, occurrences, size, put, put-last, put-erase}
use resource_pool.Outcome.{ok, ◌>>=◌, >>=-eq-ok, ok-injective}
use resource_pool.Error.{ErrorCode, failed, make_error_code, disabled, get_resource_timeout}
use resource_pool.TimeTraits.{TimePoint, Duration, add}
use resource_pool.Storage
use resource_pool.Storage.{Storage, at}
use resource_pool.Async.Handlers.{Completion, run, Event}
use resource_pool.Async.Queue
use resource_pool.Async.Queue.{Queue, ExpiringRequest}
use resource_pool.Async.Queue.Invariant.{Consistent}
use resource_pool.Async.Queue.Operations.{push-Consistent, cancel-Consistent}
use resource_pool.Async.Queue.Posts.{completions, push-completions}
use resource_pool.Async.Queue.Deadlines.{
  timed_out, whose_time_is_up, cancel-answers, cancel-failed, pop-capacity, push-capacity,
  cancel-capacity,
}
use resource_pool.Async.Queue.Refinement.{
  view, take_request, still_waiting, push-view, cancel-view, length-map,
}
use resource_pool.Async.PoolImpl.{
  PoolImpl, get_locked, get_unlocked, recycle, waste, disable, invalidate, is_zero,
}
use resource_pool.Async.PoolImpl.Opened.{Opened, Opened-Initial}
use resource_pool.Async.PoolImpl.Cases.{
  Locked, off, granted, refused, get_locked-Locked, Unlocked, expired, queued, overflow,
  get_unlocked-Unlocked,
}
use resource_pool.Async.PoolImpl.Cells.{Sound, recycled-Sound, wasted-Sound, invalidate-Sound}
use resource_pool.Async.PoolImpl.Answers.{recycle-Answers, waste-Answers}
use resource_pool.Async.PoolImpl.Disable.{disable_lem, disable-capacity, turn_away}
use resource_pool.Async.PoolImpl.Handback.{
  Handback, passed, freed, recycle-Handback, waste-Handback,
}
use resource_pool.Async.PoolImpl.Promise.{
  Action, asks, goes_on, gives_back, timer_ends, closes, turns_next, goes_unnoticed, Answer, told,
  Promise, to_client, Allows, is_off, lends, has_none, hurries, queues, overflows, hands_on,
  takes_back, times_out, fails_to_wait, turns_away, stays, seen, unused,
}

module _ {ℓ} {H T : Type ℓ} (n : ℕ) where
  -- What holds of a pool between two actions.
  pub record Good (p : PoolImpl H T) : Type ℓ where
    pub sound : Sound n p.storage
    pub consistent : Consistent p.callbacks

  -- One action, as the promise has it.
  pub record Kept (p : PoolImpl H T) (a : Action H) (r : PoolImpl H T × List (Event H))
      : Type ℓ where
    pub allowed : Allows n p.callbacks.capacity (seen p) a (told r.1) (seen r.0)
    pub good : Good r.0
    pub same_capacity : r.0.callbacks.capacity ≡ p.callbacks.capacity

module _ {ℓ} {V : Type ℓ} (m : ℕ) (r : ExpiringRequest V) (rs : List (ExpiringRequest V)) where
  request_taken :
      (take_request m r rs).0 ≡ true → (length rs < m) × ((take_request m r rs).1 ≡ rs ++ r ∷ [])
  unfolding take_request
  request_taken e = elim (Bool-cases (ltb (length rs) m)) [
    | inl fits ↦ (ground arith, rw fits refl)
    | inr full ↦ absurd (ground arith)
  ]

  request_refused : (take_request m r rs).0 ≡ false → m ≤ length rs
  unfolding take_request
  request_refused e = ground arith

module _ {ℓ} {H T : Type ℓ} (n : ℕ) (p : PoolImpl H T) (a : Good n p) where
  Locked-Kept :
      (now : TimePoint) (io : ℕ) (h : H) {r : Bool × PoolImpl H T × List (Event H)}
      → Locked p now io h r
      → Kept n p (asks io h) (r.1, r.2)
  unfolding run
  Locked-Kept now io h (off dis) = record {
    allowed = is_off io h dis;
    good = a;
    same_capacity = refl;
  }
  Locked-Kept now io h (refused en r) = record {
    allowed = has_none io h en (
        unfold size in
        omega (
          arith,
          a.sound.well_formed.sizes,
          a.sound.full,
          ap (length {A = ℕ}) r.no_available,
          ap (length {A = ℕ}) r.no_wasted,
        ));
    good = a;
    same_capacity = refl;
  }
  Locked-Kept now io h (granted c s en g w) = record {
    allowed =
        rw (g.used, put-last c p.storage.used)
          (lends io h c en (unfold occurrences in g.was_free) (
            unfold size in
            omega (
              arith,
              w.sizes,
              a.sound.full,
              g.settings.1,
              ap (length {A = ℕ}) g.used,
              length-append p.storage.used (c ∷ []),
            )));
    good = record {
      sound = record { well_formed = w; full = g.settings.1 ∙ a.sound.full };
      consistent = a.consistent;
    };
    same_capacity = refl;
  }

  pub get_locked-Kept :
      (now : TimePoint) (io : ℕ) (h : H)
      → let r = get_locked now io h p in Kept n p (asks io h) (r.1, r.2)
  get_locked-Kept now io h = Locked-Kept now io h (get_locked-Locked p now io h a.sound.well_formed)

  module _ (now : TimePoint) (io : ℕ) (h : H) (wait_duration : Duration) where
    abbrev request : ExpiringRequest H
    request = record { io_context = io; request = h; expires_at = add now wait_duration }

    Unlocked-Kept :
        {r : PoolImpl H T × List (Event H)}
        → Unlocked p now io h wait_duration r
        → Kept n p (goes_on now io h wait_duration) r
    unfolding run
    Unlocked-Kept (expired z) = record {
      allowed = hurries now io h wait_duration z;
      good = a;
      same_capacity = refl;
    }
    Unlocked-Kept (queued z room) =
        let x = (push-view p.callbacks a.consistent io wait_duration h now).0 in
        let (fits, behind) =
          request_taken p.callbacks.capacity request (view p.callbacks)
            (sym (ap (λ y. y.0) x) ∙ room) in
        record {
          allowed =
              rw
                (
                  push-completions p.callbacks a.consistent io wait_duration h now,
                  ap (λ y. y.1) x ∙ behind,
                )
                (queues now io h wait_duration z fits);
          good = record {
            sound = a.sound;
            consistent = push-Consistent p.callbacks a.consistent io wait_duration h now;
          };
          same_capacity = push-capacity p.callbacks a.consistent io wait_duration h now;
        }
    Unlocked-Kept (overflow z full) =
        let x = (push-view p.callbacks a.consistent io wait_duration h now).0 in
        let least =
          request_refused p.callbacks.capacity request (view p.callbacks)
            (sym (ap (λ y. y.0) x) ∙ full) in
        record {
          allowed = overflows now io h wait_duration z (
              omega (
                arith,
                least,
                a.consistent.fits,
                a.consistent.lengths,
                length-map p.callbacks.requests p.callbacks.ordered,
              ));
          good = a;
          same_capacity = refl;
        }

    pub get_unlocked-Kept :
        Kept n p (goes_on now io h wait_duration) (get_unlocked now io h wait_duration p)
    get_unlocked-Kept = Unlocked-Kept (get_unlocked-Unlocked p now io h wait_duration)
