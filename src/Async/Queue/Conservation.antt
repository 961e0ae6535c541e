-- ===== src/Async/Queue/Conservation.antt =====
-- queue.hpp: how many of the client's handlers a queue holds, and how many calls of them it posts.
use resource_pool.Prelude.{
  ℕ, ◌+◌, ◌<◌, ◌≤◌, ltb, ◌==◌, if◌then◌else◌, ◌≡◌, refl, sym, subst, inl, inr, Bool, none, some,
  Option, Bool-cases, List, [], ◌∷◌, ◌++◌, map, length, count, erase, count-erase, arith,
}
use resource_pool.Error.{ErrorCode, failed}
use resource_pool.TimeTraits.{TimePoint, Duration, add}
use resource_pool.Async.Handlers.{run, Event, post, dispatch, cancel_timer, set_timer, wait_timer}
use resource_pool.Async.Queue.{
  Queue, QueuedValue, ExpiringRequest, fit_capacity, spare_node, enqueue, dequeue, update_timer,
  push, pop, expire_entries, cancel, due, not_due,
}
use resource_pool.Async.Queue.Lists.{Entries, nodes_of}
use resource_pool.Async.Queue.Invariant.{Consistent, spare_node-Spare}
use resource_pool.Async.Queue.Operations.{push_full, push_room, pop_empty, pop_next}
use resource_pool.Async.Queue.Refinement.{
  view, take_request, give_request, push-view, pop-view, update_timer-view, due_waits,
}

module _ {ℓ} {H : Type ℓ} (chosen : H → Bool) where
  abbrev pub tally_one : H → ℕ
  tally_one h = if chosen h then 1 else 0

  -- The calls of chosen handlers that what is posted or dispatched makes when it runs.
  abbrev pub calls : List (Event H) → ℕ
  calls [] = 0
  calls (post io c ∷ es) = tally_one (run c).handler + calls es
  calls (dispatch io c ∷ es) = tally_one (run c).handler + calls es
  calls (cancel_timer io ∷ es) = calls es
  calls (set_timer io t ∷ es) = calls es
  calls (wait_timer io t ∷ es) = calls es

  -- The chosen handlers among waiting requests.
  abbrev pub waiting : List (ExpiringRequest H) → ℕ
  waiting [] = 0
  waiting (r ∷ rs) = tally_one r.request + waiting rs

  abbrev pub given : Option (QueuedValue H) → ℕ
  given none = 0
  given (some v) = tally_one v.request

  pub calls-append : (es fs : List (Event H)) → calls (es ++ fs) ≡ calls es + calls fs
  calls-append [] fs = omega arith
  calls-append (post io c ∷ es) fs = omega (arith, calls-append es fs)
  calls-append (dispatch io c ∷ es) fs = omega (arith, calls-append es fs)
  calls-append (cancel_timer io ∷ es) fs = calls-append es fs
  calls-append (set_timer io t ∷ es) fs = calls-append es fs
  calls-append (wait_timer io t ∷ es) fs = calls-append es fs

  waiting-append : (rs qs : List (ExpiringRequest H)) → waiting (rs ++ qs) ≡ waiting rs + waiting qs
  waiting-append [] qs = omega arith
  waiting-append (r ∷ rs) qs = omega (arith, waiting-append rs qs)

  waiting-erase :
      (f : ℕ → ExpiringRequest H) (n : ℕ) (l : List ℕ)
      → 0 < count n l
      → waiting (map f l) ≡ tally_one (f n).request + waiting (map f (erase n l))
  unfolding erase
  waiting-erase f n [] h = absurd (omega arith)
  waiting-erase f n (m ∷ l) h = elim (Bool-cases (n == m)) [
    | inl hit ↦ let e : n ≡ m = ground arith in rw (hit, e) refl
    | inr miss ↦ rw miss (omega (arith, waiting-erase f n l (ground arith)))
  ]

  calls-cancel_timer : (timers : List ℕ) → calls (map cancel_timer timers) ≡ 0
  calls-cancel_timer [] = refl
  calls-cancel_timer (io ∷ timers) = calls-cancel_timer timers

  pub update_timer-calls : (q : Queue H) → calls (update_timer q).1 ≡ 0
  unfolding update_timer
  update_timer-calls q = by_entries q.expirations refl
    where
      by_entries : (es : Entries) → q.expirations ≡ es → calls (update_timer q).1 ≡ 0
      by_entries [] e = rw e (calls-cancel_timer q.timers)
      by_entries ((t, n) ∷ rest) e = rw e refl

  expire_entries-calls :
      (es : Entries) (q : Queue H)
      → ((n : ℕ) → count n (nodes_of es) ≤ count n q.ordered)
      → let r = expire_entries es q in calls r.1 + waiting (view r.0) ≡ waiting (view q)
  unfolding expire_entries run
  expire_entries-calls [] q below = omega arith
  expire_entries-calls ((t, n) ∷ rest) q below =
      let held : 0 < count n q.ordered = ground (arith, below n) in
      let h =
        expire_entries-calls rest
          (record q { requests_pool = n ∷ q.requests_pool; ordered = erase n q.ordered })
          (λ d. ground (arith, below d, count-erase d n q.ordered held)) in
      omega (arith, h, waiting-erase q.requests n q.ordered held)

  -- Every handler that leaves a consistent queue when a timer ends is posted, once: the calls that the
  -- end of a wait posts and the handlers that still wait are as many as waited before.
  pub cancel-conserves :
      (q : Queue H)
      → Consistent q
      → (ec : ErrorCode) (t : TimePoint)
      → let r = cancel ec t q in calls r.1 + waiting (view r.0) ≡ waiting (view q)
  unfolding cancel
  cancel-conserves q c ec t = elim (Bool-cases (failed ec)) [
    | inl failing ↦ rw failing (omega arith)
    | inr fine ↦
        let r = expire_entries (due t q.expirations) q in
        let q' = record r.0 { expirations = not_due t r.0.expirations } in
        rw (fine, update_timer-view q')
          (omega (
            arith,
            calls-append r.1 (update_timer q').1,
            update_timer-calls q',
            expire_entries-calls (due t q.expirations) q (λ n. due_waits n t q c),
          ))
  ]

  give_request-waiting :
      (rs : List (ExpiringRequest H))
      → let g = give_request rs in given g.0 + waiting g.1 ≡ waiting rs
  unfolding give_request
  give_request-waiting [] = refl
  give_request-waiting (r ∷ rs) = refl

  -- What `pop` hands out waited, and it posts nothing.
  pub pop-conserves :
      (q : Queue H)
      → let r = pop q in (given r.0 + waiting (view r.1) ≡ waiting (view q)) × (calls r.2 ≡ 0)
  pop-conserves q = (
    subst (λ g. given g.0 + waiting g.1 ≡ waiting (view q)) (sym (pop-view q))
        (give_request-waiting (view q)),
    by_ordered q.ordered refl,
  )
    where
      by_ordered : (ns : List ℕ) → q.ordered ≡ ns → calls (pop q).2 ≡ 0
      by_ordered [] e = rw (pop_empty q e) refl
      by_ordered (n ∷ rest) e = rw (pop_next q n rest e) (update_timer-calls (dequeue n rest q))

  -- A request that `push` takes waits, and one that it refuses does not; it posts nothing.
  pub push-conserves :
      (q : Queue H)
      → Consistent q
      → (io : ℕ) (wait_duration : Duration) (request : H) (now : TimePoint)
      → let r = push io wait_duration request now q in
        (waiting (view r.1) ≡ (if r.0 then tally_one request else 0) + waiting (view q))
        × (calls r.2 ≡ 0)
  push-conserves q c io wait_duration request now = (
    subst (λ g. waiting g.1 ≡ (if g.0 then tally_one request else 0) + waiting (view q))
        (sym (push-view q c io wait_duration request now).0) taken,
    elim (Bool-cases (fit_capacity q)) [
      | inl fits ↦
          let s = spare_node-Spare q c in
          rw (push_room q io wait_duration request now (ground arith) s.node s.others s.at_front) (
            update_timer-calls
              (enqueue io (add now wait_duration) request s.node s.others (spare_node q)))
      | inr full ↦ rw (push_full q io wait_duration request now (ground arith)) refl
    ],
  )
    where
      r : ExpiringRequest H
      r = record { io_context = io; request = request; expires_at = add now wait_duration }

      taken :
          let g = take_request q.capacity r (view q) in
          waiting g.1 ≡ (if g.0 then tally_one request else 0) + waiting (view q)
      taken =
          unfold take_request in
          elim (Bool-cases (ltb (length (view q)) q.capacity)) [
            | inl fits ↦ rw fits (omega (arith, waiting-append (view q) (r ∷ [])))
            | inr full ↦ rw full (omega arith)
          ]
