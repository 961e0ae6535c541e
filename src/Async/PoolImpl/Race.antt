-- ===== src/Async/PoolImpl/Race.antt =====
-- async/detail/pool_impl.hpp: a `recycle` or `disable` by another thread between the two steps of
-- `get`.
use resource_pool.Prelude.{
  ℕ, ◌+◌, ◌<◌, ◌≡◌, refl, some, ap, ◌∙◌, inl, inr, if◌then◌else◌, Bool-cases, true, false, List, [],
  ◌∷◌, map, length, length-append, count, arith,
}
use resource_pool.Outcome.{ok}
use resource_pool.TimeTraits.{TimePoint, Duration, add}
use resource_pool.Storage.{Storage, at, put_available, put_wasted}
use resource_pool.Storage.WellFormed.{WellFormed}
use resource_pool.Storage.Grant.{lease-none}
use resource_pool.Storage.Return.{is_live, recycle_lem}
use resource_pool.Async.Handlers.{Event}
use resource_pool.Async.Queue
use resource_pool.Async.Queue.{Queue, ExpiringRequest}
use resource_pool.Async.Queue.Invariant.{Consistent}
use resource_pool.Async.Queue.Operations.{pop_empty}
use resource_pool.Async.Queue.Posts.{completions, push-completions}
use resource_pool.Async.Queue.Refinement.{view, take_request, push-view}
use resource_pool.Async.PoolImpl.{PoolImpl, get_locked, get_unlocked, recycle, disable, is_zero}
use resource_pool.Async.PoolImpl.Disable.{turn_away, disable_lem, disable-capacity}

module _ {ℓ} {H T : Type ℓ} (p : PoolImpl H T) (w : WellFormed p.storage) (c : ℕ)
    (held : 0 < count c p.storage.used) where
  -- The storage when the cell has come back.
  abbrev returned : TimePoint → Storage T
  returned mid =
      if is_live mid c p.storage then put_available mid c p.storage else put_wasted c p.storage

  one_free : (mid : TimePoint) → 0 < length (returned mid).available + length (returned mid).wasted
  unfolding put_available put_wasted
  one_free mid = elim (Bool-cases (is_live mid c p.storage)) [
    | inl live ↦ rw live (omega (arith, length-append p.storage.available (c ∷ [])))
    | inr dead ↦ rw dead (omega (arith, length-append p.storage.wasted (c ∷ [])))
  ]

  recycle_unseen :
      (mid : TimePoint)
      → p.callbacks.ordered ≡ []
      → recycle mid (at c) p ≡ ok (record p { storage = returned mid }, [])
  unfolding recycle
  recycle_unseen mid e =
      let alone = pop_empty p.callbacks e in
      rw (recycle, alone, recycle_lem p.storage c w held mid)
        (ap (λ x. ok (record p { storage = returned mid; callbacks = x.1 }, x.2)) alone)

module _ {ℓ} {H T : Type ℓ} (p : PoolImpl H T) (k : Consistent p.callbacks) where
  module _ (later : TimePoint) (io : ℕ) (h : H) (wait_duration : Duration) where
    abbrev request : ExpiringRequest H
    request = record { io_context = io; request = h; expires_at = add later wait_duration }

    first_in :
        p.callbacks.ordered ≡ []
        → 0 < p.callbacks.capacity
        → ((Queue.push io wait_duration h later p.callbacks).0 ≡ true)
          × (view (Queue.push io wait_duration h later p.callbacks).1 ≡ request ∷ [])
    first_in nobody room =
        let r = Queue.push io wait_duration h later p.callbacks in
        let taken : take_request p.callbacks.capacity request [] ≡ (true, request ∷ []) =
          unfold take_request in ground arith in
        let x : (r.0, view r.1) ≡ (true, request ∷ []) =
          (push-view p.callbacks k io wait_duration h later).0
          ∙ ap (take_request p.callbacks.capacity request) (ap (map p.callbacks.requests) nobody)
          ∙ taken in
        (ap (λ y. y.0) x, ap (λ y. y.1) x)

    -- A request of a client that waits goes into an empty queue, whatever is free.
    queues_up :
        is_zero wait_duration ≡ false
        → p.callbacks.ordered ≡ []
        → 0 < p.callbacks.capacity
        → (q : Queue H) × (es : List (Event H)) × (get_unlocked later io h wait_duration p
            ≡ (record p { callbacks = q }, es))
          × (completions es ≡ [])
          × (view q ≡ request ∷ [])
    queues_up waits nobody room =
        let r = Queue.push io wait_duration h later p.callbacks in
        let (taken, alone) = first_in nobody room in
        (
          r.1,
          r.2,
          unfold get_unlocked in ground arith,
          push-completions p.callbacks k io wait_duration h later,
          alone,
        )

no_nodes {ℓ} : {H : Type ℓ} (f : ℕ → ExpiringRequest H) (ns : List ℕ) → map f ns ≡ [] → ns ≡ []
no_nodes f [] e = refl
no_nodes f (n ∷ ns) e = cc

module _ {ℓ} {H T : Type ℓ} where
  -- On an enabled pool with a well-formed storage of which every cell is in use, and with a consistent
  -- queue of a positive capacity in which nobody waits: when another thread recycles a cell between the
  -- two steps of a `get` that may wait, the recycled cell is handed to nobody and is free, and then the
  -- request is queued without an answer, while that cell is free.
  pub lost_wakeup :
      (p : PoolImpl H T) (c : ℕ) (now mid later : TimePoint) (io : ℕ) (h : H)
      (wait_duration : Duration)
      → WellFormed p.storage
      → Consistent p.callbacks
      → p.is_disabled ≡ false
      → length p.storage.used ≡ p.storage.nodes
      → p.callbacks.ordered ≡ []
      → 0 < p.callbacks.capacity
      → 0 < count c p.storage.used
      → is_zero wait_duration ≡ false
      → (q : PoolImpl H T) × (r : PoolImpl H T) × (es : List (Event H)) × (get_locked now io h p
          ≡ (false, p, []))
        × (recycle mid (at c) p ≡ ok (q, []))
        × (get_unlocked later io h wait_duration q ≡ (r, es))
        × (completions es ≡ [])
        × (view r.callbacks
            ≡ record { io_context = io; request = h; expires_at = add later wait_duration } ∷ [])
        × (0 < length r.storage.available + length r.storage.wasted)
  lost_wakeup p c now mid later io h wait_duration w k on full nobody room held waits =
      let none_free = (lease-none now p.storage w).0.1 full in
      let q : PoolImpl H T = record p { storage = returned p w c held mid } in
      let (left, es, answer, silent, alone) =
        queues_up q k later io h wait_duration waits nobody room in
      (
        q,
        record q { callbacks = left },
        es,
        unfold get_locked in ground arith,
        recycle_unseen p w c held mid nobody,
        answer,
        silent,
        alone,
        one_free p w c held mid,
      )

  -- On an enabled pool with a well-formed storage of which every cell is in use, and with a consistent
  -- queue of a positive capacity: when another thread disables the pool between the two steps of a `get`
  -- that may wait, the clients that wait then are turned away, and then the request is queued without an
  -- answer, and is left alone in the queue of a disabled pool.
  pub left_behind :
      (p : PoolImpl H T) (now later : TimePoint) (io : ℕ) (h : H) (wait_duration : Duration)
      → WellFormed p.storage
      → Consistent p.callbacks
      → p.is_disabled ≡ false
      → length p.storage.used ≡ p.storage.nodes
      → 0 < p.callbacks.capacity
      → is_zero wait_duration ≡ false
      → (q : PoolImpl H T) × (r : PoolImpl H T) × (es : List (Event H)) × (fs : List (Event H))
        × (get_locked now io h p ≡ (false, p, []))
        × (disable p ≡ some (q, es))
        × (completions es ≡ map turn_away (view p.callbacks))
        × (get_unlocked later io h wait_duration q ≡ (r, fs))
        × (completions fs ≡ [])
        × (r.is_disabled ≡ true)
        × (view r.callbacks
            ≡ record { io_context = io; request = h; expires_at = add later wait_duration } ∷ [])
  left_behind p now later io h wait_duration w k on full room waits =
      let none_free = (lease-none now p.storage w).0.1 full in
      let (q, es, closed, off, nobody, same, away, kept) = disable_lem p in
      let empty = no_nodes q.callbacks.requests q.callbacks.ordered nobody in
      let capacity = disable-capacity p q es closed in
      let (left, fs, answer, silent, alone) =
        queues_up q (kept k) later io h wait_duration waits empty (omega (arith, capacity, room)) in
      (
        q,
        record q { callbacks = left },
        es,
        fs,
        unfold get_locked in ground arith,
        closed,
        away,
        answer,
        silent,
        off,
        alone,
      )
