-- ===== src/Async/PoolImpl/Busy.antt =====
-- async/detail/pool_impl.hpp: while a request waits, every cell is in use, which every operation
-- keeps when no other thread comes between the two steps of `get`.
use resource_pool.Prelude.{
  ℕ, ◌<◌, ◌≤◌, ◌≡◌, sym, ap, subst, ◌∙◌, inl, inr, if◌then◌else◌, Bool, Bool-cases, true, false,
  some, List, [], ◌∷◌, length, length-append, count, arith,
}
use resource_pool.Outcome.{ok, ok-injective}
use resource_pool.Error.{ErrorCode, failed}
use resource_pool.TimeTraits.{TimePoint, Duration}
use resource_pool.Storage
use resource_pool.Storage.{Storage, at}
use resource_pool.Async.Handlers.{Event}
use resource_pool.Async.Queue
use resource_pool.Async.Queue.{Queue, ExpiringRequest}
use resource_pool.Async.Queue.Invariant.{Consistent}
use resource_pool.Async.Queue.Operations.{push-Consistent, cancel-Consistent}
use resource_pool.Async.Queue.Refinement.{view, cancel-view}
use resource_pool.Async.Queue.Expiry.{fewer_wait}
use resource_pool.Async.PoolImpl
use resource_pool.Async.PoolImpl.{
  PoolImpl, with_capacity, get_locked, get_unlocked, recycle, waste, disable, invalidate,
}
use resource_pool.Async.PoolImpl.Answers.{recycle-Answers, waste-Answers}
use resource_pool.Async.PoolImpl.Cases.{
  Locked, off, granted, refused, get_locked-Locked, Unlocked, expired, queued, overflow,
  get_unlocked-Unlocked,
}
use resource_pool.Async.PoolImpl.Cells.{Sound, recycled-Sound, wasted-Sound, invalidate-Sound}
use resource_pool.Async.PoolImpl.Disable.{disable_lem}
use resource_pool.Async.PoolImpl.Handback.{
  Handback, passed, freed, recycle-Handback, waste-Handback,
}

-- While a request waits, every cell is in use; on a disabled pool none waits.
pub record Busy {ℓ} {H T : Type ℓ} (n : ℕ) (p : PoolImpl H T) : Type ℓ where
  pub sound : Sound n p.storage
  pub consistent : Consistent p.callbacks
  pub busy : 0 < length (view p.callbacks) → n ≤ length p.storage.used
  pub closed : p.is_disabled ≡ true → length (view p.callbacks) ≡ 0

module _ {ℓ} {H T : Type ℓ} (n : ℕ) (p : PoolImpl H T) (a : Busy n p) where
  -- `get` behind its first step.
  abbrev resumed :
      TimePoint
      → ℕ
      → H
      → Duration
      → Bool × PoolImpl H T × List (Event H)
      → PoolImpl H T × List (Event H)
  resumed later io h wait_duration r =
      if r.0 then (r.1, r.2) else get_unlocked later io h wait_duration r.1

  queued-Busy :
      (later : TimePoint) (io : ℕ) (h : H) (wait_duration : Duration)
      {r : PoolImpl H T × List (Event H)}
      → p.is_disabled ≡ false
      → n ≤ length p.storage.used
      → Unlocked p later io h wait_duration r
      → Busy n r.0
  queued-Busy later io h wait_duration on all (expired z) = a
  queued-Busy later io h wait_duration on all (overflow z full) = a
  queued-Busy later io h wait_duration on all (queued z room) = record {
    sound = a.sound;
    consistent = push-Consistent p.callbacks a.consistent io wait_duration h later;
    busy = λ _. all;
    closed = λ dis. absurd (ground (arith, on, dis));
  }

  resumed-Busy :
      (now later : TimePoint) (io : ℕ) (h : H) (wait_duration : Duration)
      {r : Bool × PoolImpl H T × List (Event H)}
      → Locked p now io h r
      → Busy n (resumed later io h wait_duration r).0
  resumed-Busy now later io h wait_duration (off dis) = a
  resumed-Busy now later io h wait_duration (granted c s on g w) = record {
    sound = record { well_formed = w; full = g.settings.1 ∙ a.sound.full };
    consistent = a.consistent;
    busy = λ some_wait. omega (
      arith,
      a.busy some_wait,
      ap (length {A = ℕ}) g.used,
      length-append p.storage.used (c ∷ []),
    );
    closed = a.closed;
  }
  resumed-Busy now later io h wait_duration (refused on r) =
      queued-Busy later io h wait_duration on
        (omega (
          arith,
          a.sound.well_formed.sizes,
          a.sound.full,
          ap (length {A = ℕ}) r.no_available,
          ap (length {A = ℕ}) r.no_wasted,
        ))
        (get_unlocked-Unlocked p later io h wait_duration)

  pub get-Busy :
      (now later : TimePoint) (io : ℕ) (h : H) (wait_duration : Duration)
      → Busy n (PoolImpl.get now later io h wait_duration p).0
  unfolding PoolImpl.get
  get-Busy now later io h wait_duration =
      resumed-Busy now later io h wait_duration (get_locked-Locked p now io h a.sound.well_formed)

  back-Busy :
      (c : ℕ) {r : PoolImpl H T × List (Event H)}
      → Sound n r.0.storage
      → Consistent r.0.callbacks
      → Handback p c r
      → Busy n r.0
  back-Busy c sound consistent (passed s q es r v free same wasted e) = record {
    sound = sound;
    consistent = consistent;
    busy = λ some_wait.
        let all = a.busy (omega (arith, ap (length {A = ExpiringRequest H}) v)) in
        omega (arith, all, ap (length {A = ℕ}) same);
    closed = λ dis. absurd (omega (arith, a.closed dis, ap (length {A = ExpiringRequest H}) v));
  }
  back-Busy c sound consistent (freed s q es v v' less e) = record {
    sound = sound;
    consistent = consistent;
    busy = λ some_wait. absurd (omega (arith, ap (length {A = ExpiringRequest H}) v'));
    closed = λ dis. ap length v';
  }

  pub recycle-Busy :
      (p' : PoolImpl H T) (es : List (Event H)) (now : TimePoint) (c : ℕ)
      → 0 < count c p.storage.used
      → recycle now (at c) p ≡ ok (p', es)
      → Busy n p'
  recycle-Busy p' es now c held e =
      let (r, er, h) = recycle-Handback p c a.sound.well_formed held now in
      back-Busy c (recycled-Sound n p a.sound p' es now (at c) e)
        (recycle-Answers (λ _. true) p a.consistent p' es now (at c) e).consistent
        (subst (Handback p c) (ok-injective (sym er ∙ e)) h)

  pub waste-Busy :
      (p' : PoolImpl H T) (es : List (Event H)) (c : ℕ)
      → 0 < count c p.storage.used
      → waste (at c) p ≡ ok (p', es)
      → Busy n p'
  waste-Busy p' es c held e =
      let (r, er, h) = waste-Handback p c a.sound.well_formed held in
      back-Busy c (wasted-Sound n p a.sound p' es (at c) e)
        (waste-Answers (λ _. true) p a.consistent p' es (at c) e).consistent
        (subst (Handback p c) (ok-injective (sym er ∙ e)) h)

  fewer_after :
      (ec : ErrorCode) (t : TimePoint)
      → length (view (Queue.cancel ec t p.callbacks).0) ≤ length (view p.callbacks)
  fewer_after ec t =
      rw ((cancel-view p.callbacks a.consistent ec t).0) (elim (Bool-cases (failed ec)) [
        | inl failing ↦ rw failing (omega arith)
        | inr fine ↦ rw fine (fewer_wait t (view p.callbacks))
      ])

  pub cancel-Busy :
      (ec : ErrorCode) (t : TimePoint)
      → Busy n (record p { callbacks = (Queue.cancel ec t p.callbacks).0 })
  cancel-Busy ec t = record {
    sound = a.sound;
    consistent = cancel-Consistent p.callbacks a.consistent ec t;
    busy = λ some_wait. a.busy (omega (arith, some_wait, fewer_after ec t));
    closed = λ dis. omega (arith, a.closed dis, fewer_after ec t);
  }

  pub disable-Busy :
      (p' : PoolImpl H T) (es : List (Event H)) → disable p ≡ some (p', es) → Busy n p'
  disable-Busy p' es e =
      let (left, events, returns, dis, nobody, same, all, kept) = disable_lem p in
      let m : PoolImpl H T × List (Event H) = (left, events) in
      let m' : PoolImpl H T × List (Event H) = (p', es) in
      let x : m ≡ m' = cc in
      subst (λ y. Busy n y.0) x
        (record {
          sound = subst (Sound n) (sym same) a.sound;
          consistent = kept a.consistent;
          busy = λ some_wait. absurd (omega (arith, ap (length {A = ExpiringRequest H}) nobody));
          closed = λ _. ap length nobody;
        })

  pub invalidate-Busy : Busy n (invalidate p)
  unfolding invalidate
  invalidate-Busy = record {
    sound = invalidate-Sound n p.storage a.sound;
    consistent = a.consistent;
    busy = unfold Storage.invalidate in a.busy;
    closed = a.closed;
  }
