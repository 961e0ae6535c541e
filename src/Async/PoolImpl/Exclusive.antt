-- ===== src/Async/PoolImpl/Exclusive.antt =====
-- async/detail/pool_impl.hpp: no cell is in the hands of two clients, whatever threads and timers do.
use resource_pool.Prelude.{
  ℕ, ◌+◌, ◌<◌, ◌≤◌, ◌≡◌, refl, sym, ap, subst, ◌∙◌, some, List, [], ◌∷◌, ◌++◌, map, length, count,
  arith, true,
}
use resource_pool.Outcome.{ok, ok-injective}
use resource_pool.Storage
use resource_pool.Storage.{Storage, at, singular}
use mathlib.Core.List.{append-nil}
use resource_pool.Storage.Access.{refill}
use resource_pool.Storage.Held.{same-Held, nobody-Held, held_in_use, Held-once}
use resource_pool.Storage.WellFormed.{write-WellFormed}
use resource_pool.Error.{ErrorCode}
use resource_pool.TimeTraits.{TimePoint}
use resource_pool.Async.Handlers.{run, Event}
use resource_pool.Async.Queue
use resource_pool.Async.Queue.{ExpiringRequest}
use resource_pool.Async.Queue.Operations.{cancel-Consistent}
use resource_pool.Async.Queue.Posts.{completions, cells_of, cancel-cells}
use resource_pool.Async.Queue.Refinement.{view}
use resource_pool.Async.PoolImpl
use resource_pool.Async.PoolImpl.{PoolImpl, recycle, waste, disable, invalidate}
use resource_pool.Async.PoolImpl.Disable.{turn_away, disable_lem}
use resource_pool.Async.PoolImpl.Answers.{recycle-Answers, waste-Answers}
use resource_pool.Async.PoolImpl.Cells.{Sound, recycled-Sound, wasted-Sound, invalidate-Sound}
use resource_pool.Async.PoolImpl.Opened.{Opened-Initial}
use resource_pool.Async.PoolImpl.Cases.{get_locked-Locked, get_unlocked-Unlocked}
use resource_pool.Async.PoolImpl.Handback.{Handback, recycle-Handback, waste-Handback}
use resource_pool.Async.PoolImpl.Ownership.{
  Clients, opens, asks, queues, recycles, wastes, fills, times_out, closes, invalidates, Owned,
  After, unchanged, Locked-Owned, Unlocked-Owned, back-Owned,
}

turn_away-cells {ℓ} :
    {H : Type ℓ} (rs : List (ExpiringRequest H)) → cells_of (map turn_away rs) ≡ []
unfolding run
turn_away-cells [] = refl
turn_away-cells (r ∷ rs) = turn_away-cells rs

module _ {ℓ} {H T : Type ℓ} (n : ℕ) (p : PoolImpl H T) (held : List ℕ) (a : Owned n p held) where
  disable-Owned :
      (p' : PoolImpl H T) (es : List (Event H))
      → disable p ≡ some (p', es)
      → Owned n p' (held ++ cells_of (completions es))
  disable-Owned p' es e =
      let (left, events, returns, off, nobody, same, all, kept) = disable_lem p in
      let m : PoolImpl H T × List (Event H) = (left, events) in
      let m' : PoolImpl H T × List (Event H) = (p', es) in
      let x : m ≡ m' = cc in
      let none_given = ap cells_of all ∙ turn_away-cells (view p.callbacks) in
      subst (After n p held) x (
        rw (none_given, append-nil held)
          (record {
            sound = subst (Sound n) (sym same) a.sound;
            consistent = kept a.consistent;
            holds = same-Held p.storage left.storage held (ap (λ s. s.used) same) a.holds;
          }))

  cancel-Owned :
      (ec : ErrorCode) (t : TimePoint)
      → let r = Queue.cancel ec t p.callbacks in
        Owned n (record p { callbacks = r.0 }) (held ++ cells_of (completions r.1))
  cancel-Owned ec t =
      unchanged n p held _ _ a (cancel-Consistent p.callbacks a.consistent ec t)
        (cancel-cells p.callbacks ec t)

  refill-Owned :
      (now : TimePoint) (c : ℕ) (v : T)
      → 0 < count c held
      → Owned n (record p { storage = refill now c v p.storage }) held
  refill-Owned now c v has = record {
    sound = record {
      well_formed =
          write-WellFormed p.storage c _ a.sound.well_formed (omega (arith, a.holds.own c));
      full = a.sound.full;
    };
    consistent = a.consistent;
    holds = same-Held p.storage _ held refl a.holds;
  }

  invalidate-Owned : Owned n (invalidate p) held
  unfolding invalidate
  invalidate-Owned = record {
    sound = invalidate-Sound n p.storage a.sound;
    consistent = a.consistent;
    holds = same-Held p.storage _ held (unfold Storage.invalidate in refl) a.holds;
  }

module _ {ℓ} {H T : Type ℓ} (n : ℕ) (p : PoolImpl H T) (c : ℕ) (before after : List ℕ)
    (a : Owned n p (before ++ c ∷ after)) (p' : PoolImpl H T) (es : List (Event H)) where
  recycle-Owned :
      (now : TimePoint)
      → recycle now (at c) p ≡ ok (p', es)
      → Owned n p' ((before ++ after) ++ cells_of (completions es))
  recycle-Owned now e =
      let (r, er, h) =
        recycle-Handback p c a.sound.well_formed (held_in_use p.storage c before after a.holds)
          now in
      back-Owned n p c before after a (recycled-Sound n p a.sound p' es now (at c) e)
        (recycle-Answers (λ _. true) p a.consistent p' es now (at c) e).consistent
        (subst (Handback p c) (ok-injective (sym er ∙ e)) h)

  waste-Owned :
      waste (at c) p ≡ ok (p', es) → Owned n p' ((before ++ after) ++ cells_of (completions es))
  waste-Owned e =
      let (r, er, h) =
        waste-Handback p c a.sound.well_formed (held_in_use p.storage c before after a.holds) in
      back-Owned n p c before after a (wasted-Sound n p a.sound p' es (at c) e)
        (waste-Answers (λ _. true) p a.consistent p' es (at c) e).consistent
        (subst (Handback p c) (ok-injective (sym er ∙ e)) h)

module _ {ℓ} {H T : Type ℓ} where
  pub Clients-Owned : {n : ℕ} {p : PoolImpl H T} {held : List ℕ} → Clients n p held → Owned n p held
  Clients-Owned {n} (opens p o) =
      let a = Opened-Initial o in
      record {
        sound = a.sound;
        consistent = a.consistent;
        holds = nobody-Held p.storage a.none_used;
      }
  Clients-Owned {n} (asks now io h answered {p} {held = held} k e) =
      let a = Clients-Owned k in
      subst (λ x. After n p held (x.1, x.2)) e
        (Locked-Owned n p now io h held a (get_locked-Locked p now io h a.sound.well_formed))
  Clients-Owned {n} (queues now io h wait_duration {p} {held = held} k e) =
      subst (After n p held) e (
        Unlocked-Owned n p now io h wait_duration held (Clients-Owned k)
          (get_unlocked-Unlocked p now io h wait_duration))
  Clients-Owned {n} (recycles now c before after {p} {p'} {es} k e) =
      recycle-Owned n p c before after (Clients-Owned k) p' es now e
  Clients-Owned {n} (wastes c before after {p} {p'} {es} k e) =
      waste-Owned n p c before after (Clients-Owned k) p' es e
  Clients-Owned {n} (fills now c v {p} {held} k has) =
      refill-Owned n p held (Clients-Owned k) now c v has
  Clients-Owned {n} (times_out ec t {p} {held = held} k e) =
      subst (λ x. Owned n (record p { callbacks = x.0 }) (held ++ cells_of (completions x.1))) e
        (cancel-Owned n p held (Clients-Owned k) ec t)
  Clients-Owned {n} (closes {p} {p'} {held} {es} k e) =
      disable-Owned n p held (Clients-Owned k) p' es e
  Clients-Owned {n} (invalidates {p} {held} k) = invalidate-Owned n p held (Clients-Owned k)

  -- Whatever clients, threads and timers do with a pool of `n` cells, as long as clients return and
  -- fill only cells that they hold: the cells that are held are exactly those in use, each is held by
  -- one client and is not free, and they are as many as `used` reports, `n` at most.
  pub exclusive :
      (n : ℕ) (p : PoolImpl H T) (held : List ℕ)
      → Clients n p held
      → ((c : ℕ)
          → (count c held ≡ count c p.storage.used)
            × (count c held + count c p.storage.available + count c p.storage.wasted ≤ 1))
        × (length held ≡ PoolImpl.used p)
        × (length held ≤ n)
  unfolding PoolImpl.used Storage.stats
  exclusive n p held k =
      let a = Clients-Owned k in
      (
        Held-once held p.storage a.holds a.sound.well_formed,
        a.holds.as_many,
        omega (arith, a.holds.as_many, a.sound.well_formed.sizes, a.sound.full),
      )

  -- A client that holds a cell can always return it: neither `recycle` nor `waste` of it is undefined.
  pub returnable :
      (n : ℕ) (p : PoolImpl H T) (held : List ℕ) (c : ℕ) (now : TimePoint)
      → Clients n p held
      → 0 < count c held
      → (r : PoolImpl H T × List (Event H)) × (s : PoolImpl H T × List (Event H)) × (recycle now
            (at c)
            p
          ≡ ok r)
        × (waste (at c) p ≡ ok s)
  returnable n p held c now k has =
      let a = Clients-Owned k in
      let in_use : 0 < count c p.storage.used = omega (arith, a.holds.own c) in
      let (r, er, h) = recycle-Handback p c a.sound.well_formed in_use now in
      let (s, es, g) = waste-Handback p c a.sound.well_formed in_use in (r, s, er, es)
