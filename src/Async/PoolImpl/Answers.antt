-- ===== src/Async/PoolImpl/Answers.antt =====
-- async/detail/pool_impl.hpp: whatever threads do with a pool, each handler is answered once.
use resource_pool.Prelude.{
  ℕ, ◌+◌, ◌≡◌, ap, subst, inl, inr, if◌then◌else◌, Bool, true, false, Bool-cases, none, some,
  Option, List, [], ◌∷◌, arith,
}
use resource_pool.Outcome.{ok}
use resource_pool.Error.{ErrorCode, success, make_error_code, disabled}
use resource_pool.TimeTraits.{TimePoint, Duration}
use resource_pool.Storage
use resource_pool.Storage.{Storage, CellIterator, singular}
use resource_pool.Async.Handlers.{run, on_list_iterator_handler, Event, post, dispatch}
use resource_pool.Async.Queue
use resource_pool.Async.Queue.{Queue, QueuedValue, ExpiringRequest}
use resource_pool.Async.Queue.Invariant.{Consistent}
use resource_pool.Async.Queue.Operations.{push-Consistent, pop-Consistent, cancel-Consistent}
use resource_pool.Async.Queue.Refinement.{view}
use resource_pool.Async.Queue.Conservation.{
  tally_one, calls, waiting, given, calls-append, cancel-conserves, pop-conserves, push-conserves,
}
use resource_pool.Async.PoolImpl.{
  PoolImpl, serve, get_locked, get_unlocked, recycle, waste, disable, is_zero,
}
use resource_pool.Async.PoolImpl.Comeback.{
  Comeback, stored, served, recycle-Comeback, waste-Comeback,
}
use resource_pool.Async.PoolImpl.Disable.{disable_lem, calls_of, calls-completions, calls-turn_away}

-- What a step does to the clients' handlers: `due` counts those that come in with it.
pub record Answers {ℓ} {H T : Type ℓ} (chosen : H → Bool) (due : ℕ) (p p' : PoolImpl H T)
    (events : List (Event H)) : Type 0 where
  pub conserved :
      calls chosen events + waiting chosen (view p'.callbacks)
      ≡ due + waiting chosen (view p.callbacks)
  pub consistent : Consistent p'.callbacks

module _ {ℓ} {H T : Type ℓ} (chosen : H → Bool) (p : PoolImpl H T)
    (c : Consistent p.callbacks) where
  pub get_locked-Answers :
      (now : TimePoint) (io : ℕ) (h : H)
      → let r = get_locked now io h p in
        Answers chosen (if r.0 then tally_one chosen h else 0) p r.1 r.2
  unfolding get_locked run
  get_locked-Answers now io h = by_case p.is_disabled (Storage.lease now p.storage)
    where
      by_case :
          (off : Bool) (l : Option CellIterator × Storage T)
          → let r : Bool × PoolImpl H T × List (Event H) =
              (if off
                then (
                  true,
                  p,
                  dispatch io (on_list_iterator_handler (make_error_code disabled) singular h) ∷ [],
                )
                else elim l.0 [
                  | none ↦ (false, record p { storage = l.1 }, [])
                  | some it ↦ (
                    true,
                    record p { storage = l.1 },
                    post io (on_list_iterator_handler success it h) ∷ [],
                  )
                ]) in
            Answers chosen (if r.0 then tally_one chosen h else 0) p r.1 r.2
      by_case true l = record { conserved = omega arith; consistent = c }
      by_case false (none, s) = record { conserved = omega arith; consistent = c }
      by_case false (some it, s) = record { conserved = omega arith; consistent = c }

  pub get_unlocked-Answers :
      (now : TimePoint) (io : ℕ) (h : H) (wait_duration : Duration)
      → let r = get_unlocked now io h wait_duration p in
        Answers chosen (tally_one chosen h) p r.0 r.1
  unfolding get_unlocked run
  get_unlocked-Answers now io h wait_duration = elim (Bool-cases (is_zero wait_duration)) [
    | inl zero_wait ↦ rw zero_wait (record { conserved = omega arith; consistent = c })
    | inr waits ↦
        let e = push-conserves chosen p.callbacks c io wait_duration h now in
        rw waits (elim (Bool-cases (Queue.push io wait_duration h now p.callbacks).0) [
          | inl pushed ↦ rw pushed (record {
            conserved = ground (arith, e);
            consistent = push-Consistent p.callbacks c io wait_duration h now;
          })
          | inr full ↦ rw full (record { conserved = omega arith; consistent = c })
        ])
  ]

  pub cancel-Answers :
      (ec : ErrorCode) (t : TimePoint)
      → let r = Queue.cancel ec t p.callbacks in
        Answers chosen 0 p (record p { callbacks = r.0 }) r.1
  cancel-Answers ec t = record {
    conserved = omega (arith, cancel-conserves chosen p.callbacks c ec t);
    consistent = cancel-Consistent p.callbacks c ec t;
  }

  -- A cell that comes back is handed to the first that waits; or no one waits.
  Comeback-Answers :
      (it : CellIterator) (taken : Storage T → Type ℓ) {r : PoolImpl H T × List (Event H)}
      → Comeback p it taken r
      → Answers chosen 0 p r.0 r.1
  unfolding run
  Comeback-Answers it taken (stored s nobody t) = record {
    conserved = omega (arith, pop-conserves chosen p.callbacks, ap (given chosen) nobody);
    consistent = pop-Consistent p.callbacks c;
  }
  Comeback-Answers it taken (served value s first kept) = record {
    conserved = omega (
      arith,
      pop-conserves chosen p.callbacks,
      ap (given chosen) first,
      calls-append chosen (Queue.pop p.callbacks).2 (serve value it ∷ []),
    );
    consistent = pop-Consistent p.callbacks c;
  }

  module _ (p' : PoolImpl H T) (events : List (Event H)) where
    pub recycle-Answers :
        (now : TimePoint) (it : CellIterator)
        → recycle now it p ≡ ok (p', events)
        → Answers chosen 0 p p' events
    recycle-Answers now it e = Comeback-Answers it _ (recycle-Comeback p it p' events now e)

    pub waste-Answers :
        (it : CellIterator) → waste it p ≡ ok (p', events) → Answers chosen 0 p p' events
    waste-Answers it e = Comeback-Answers it _ (waste-Comeback p it p' events e)

module _ {ℓ} {H T : Type ℓ} (chosen : H → Bool) (p : PoolImpl H T) (c : Consistent p.callbacks)
    (p' : PoolImpl H T) (events : List (Event H)) where
  pub disable-Answers : disable p ≡ some (p', events) → Answers chosen 0 p p' events
  disable-Answers e =
      let (left, es, returns, off, nobody, same, all, kept) = disable_lem p in
      let m : PoolImpl H T × List (Event H) = (left, es) in
      let m' : PoolImpl H T × List (Event H) = (p', events) in
      let x : m ≡ m' = cc in
      subst (λ r. Answers chosen 0 p r.0 r.1) x
        (record {
          conserved = omega (
            arith,
            calls-completions chosen es,
            ap (calls_of chosen) all,
            calls-turn_away chosen (view p.callbacks),
            ap (waiting chosen) nobody,
          );
          consistent = kept c;
        })
