-- ===== src/Async/Queue/Operations.antt =====
-- queue.hpp: `push`, `pop` and `cancel` by what the queue holds, and that each keeps the invariant.
use resource_pool.Prelude.{
  ℕ, ◌+◌, ◌<◌, ◌≤◌, ◌≡◌, refl, sym, subst, inl, inr, true, false, none, some, Bool-cases, List, [],
  ◌∷◌, length, contains, count, erase, count-erase, length-erase, arith,
}
use resource_pool.Error.{ErrorCode, failed}
use resource_pool.TimeTraits.{TimePoint, Duration, add}
use resource_pool.Async.Queue.{
  Queue, update_timer, spare_node, enqueue, enqueue_spare, push, fit_capacity, dequeue, pop,
  expire_entries, cancel, due, not_due, timer, get_timer,
}
use resource_pool.Async.Queue.Lists.{
  Entries, nodes_of, count-due, length-due, not_due-Sorted, not_due-Keyed,
}
use resource_pool.Async.Queue.Invariant.{
  Consistent, update_timer-Consistent, spare_node-Spare, enqueue-Consistent, dequeue-Consistent,
}

-- The queue after the loop of `cancel` over some entries.
pub record Expired {ℓ} {V : Type ℓ} (es : Entries) (q q' : Queue V) : Type ℓ where
  pub leaves : (n : ℕ) → count n q.ordered ≡ count n (nodes_of es) + count n q'.ordered
  pub spares : (n : ℕ) → count n q'.requests_pool ≡ count n (nodes_of es) + count n q.requests_pool
  pub shorter : length q.ordered ≡ length es + length q'.ordered
  pub same_nodes : q'.nodes ≡ q.nodes
  pub same_requests : q'.requests ≡ q.requests
  pub same_capacity : q'.capacity ≡ q.capacity
  pub same_expirations : q'.expirations ≡ q.expirations

module _ {ℓ} {V : Type ℓ} where
  pub expire_entries-Expired :
      (es : Entries) (q : Queue V)
      → ((n : ℕ) → count n (nodes_of es) ≤ count n q.ordered)
      → Expired es q (expire_entries es q).0
  unfolding expire_entries
  expire_entries-Expired [] q below = record {
    leaves = λ n. omega arith;
    spares = λ n. omega arith;
    shorter = omega arith;
    same_nodes = refl;
    same_requests = refl;
    same_capacity = refl;
    same_expirations = refl;
  }
  expire_entries-Expired ((t, n) ∷ rest) q below =
      let held : 0 < count n q.ordered = ground (arith, below n) in
      let h =
        expire_entries-Expired rest
          (record q { requests_pool = n ∷ q.requests_pool; ordered = erase n q.ordered })
          (λ d. ground (arith, below d, count-erase d n q.ordered held)) in
      record {
        leaves = λ d. ground (arith, h.leaves d, count-erase d n q.ordered held);
        spares = λ d. ground (arith, h.spares d);
        shorter = ground (arith, h.shorter, length-erase n q.ordered held);
        same_nodes = h.same_nodes;
        same_requests = h.same_requests;
        same_capacity = h.same_capacity;
        same_expirations = h.same_expirations;
      }

  -- The queue is consistent when the entries that are due are gone, too.
  pub Expired-Consistent :
      (t : TimePoint) (q q' : Queue V)
      → Consistent q
      → Expired (due t q.expirations) q q'
      → Consistent (record q' { expirations = not_due t q'.expirations })
  Expired-Consistent t q q' c h = rw h.same_expirations (record {
    owned = λ n. ground (arith, c.owned n, h.leaves n, h.spares n, h.same_nodes);
    entered = λ n. ground (arith, c.entered n, h.leaves n, count-due n t q.expirations);
    lengths = ground (arith, c.lengths, h.shorter, length-due t q.expirations);
    sorted = not_due-Sorted t q.expirations c.sorted;
    keyed = rw h.same_requests (not_due-Keyed _ t q.expirations c.keyed);
    fits = ground (arith, c.fits, h.same_capacity, length-due t q.expirations);
  })

module _ {ℓ} {V : Type ℓ} where
  enqueue_first :
      (q : Queue V) (io : ℕ) (t : TimePoint) (request : V) (n : ℕ) (rest : List ℕ)
      → q.requests_pool ≡ n ∷ rest
      → enqueue_spare io t request q ≡ enqueue io t request n rest q
  unfolding enqueue_spare
  enqueue_first q io t request n rest e = rw e refl

-- `push` and `pop` by what the queue holds.
module _ {ℓ} {V : Type ℓ} (q : Queue V) where
  pub push_full :
      (io : ℕ) (wait_duration : Duration) (request : V) (now : TimePoint)
      → q.capacity ≤ length q.expirations
      → push io wait_duration request now q ≡ (false, q, [])
  unfolding push
  push_full io wait_duration request now full =
      let b : fit_capacity q ≡ false = ground arith in rw b refl

  pub push_room :
      (io : ℕ) (wait_duration : Duration) (request : V) (now : TimePoint)
      → length q.expirations < q.capacity
      → (n : ℕ) (rest : List ℕ) → (spare_node q).requests_pool ≡ n ∷ rest
      → push io wait_duration request now q ≡ (
          let u = update_timer (enqueue io (add now wait_duration) request n rest (spare_node q)) in
          (true, u.0, u.1))
  unfolding push
  push_room io wait_duration request now room n rest e =
      let b : fit_capacity q ≡ true = ground arith in
      rw (b, enqueue_first (spare_node q) io (add now wait_duration) request n rest e) refl

  pub pop_empty : q.ordered ≡ [] → pop q ≡ (none, q, [])
  unfolding pop
  pop_empty e = rw e refl

  pub pop_next :
      (n : ℕ) (rest : List ℕ)
      → q.ordered ≡ n ∷ rest
      → pop q ≡ (
          let r = q.requests n in
          let u = update_timer (dequeue n rest q) in
          (some (record { request = r.request; io_context = r.io_context }), u.0, u.1))
  unfolding pop
  pop_next n rest e = rw e refl

module _ {ℓ} {V : Type ℓ} (q : Queue V) (c : Consistent q) where
  -- `push` keeps a queue consistent, whether it takes the request or refuses it.
  pub push-Consistent :
      (io : ℕ) (wait_duration : Duration) (request : V) (now : TimePoint)
      → Consistent (push io wait_duration request now q).1
  push-Consistent io wait_duration request now = elim (Bool-cases (fit_capacity q)) [
    | inl fits ↦
        let room : length q.expirations < q.capacity = ground arith in
        let s = spare_node-Spare q c in
        rw (push_room q io wait_duration request now room s.node s.others s.at_front) (
          update_timer-Consistent _ (
            enqueue-Consistent (spare_node q) s.consistent s.node s.others io
              (add now wait_duration) request s.at_front
              (ground (arith, s.same_expirations, s.same_capacity))))
    | inr full ↦ rw (push_full q io wait_duration request now (ground arith)) c
  ]

  -- `pop` keeps a queue consistent.
  pub pop-Consistent : Consistent (pop q).1
  pop-Consistent = by_ordered q.ordered refl
    where
      by_ordered : (ns : List ℕ) → q.ordered ≡ ns → Consistent (pop q).1
      by_ordered [] e = subst (λ r. Consistent r.1) (sym (pop_empty q e)) c
      by_ordered (n ∷ rest) e =
          subst (λ r. Consistent r.1) (sym (pop_next q n rest e))
            (update_timer-Consistent _ (dequeue-Consistent q c n rest e))

  -- `cancel` keeps a queue consistent, whatever error code its wait ended with.
  pub cancel-Consistent : (ec : ErrorCode) (t : TimePoint) → Consistent (cancel ec t q).0
  unfolding cancel
  cancel-Consistent ec t = elim (Bool-cases (failed ec)) [
    | inl failing ↦ rw failing c
    | inr fine ↦ rw fine (
        update_timer-Consistent _ (
          Expired-Consistent t q _ c (
            expire_entries-Expired (due t q.expirations) q
              (λ n. ground (arith, c.entered n, count-due n t q.expirations)))))
  ]

  -- `timer` keeps a queue consistent: only the timers may change.
  pub timer-Consistent : (io : ℕ) → Consistent (timer io q)
  unfolding timer get_timer
  timer-Consistent io = elim (Bool-cases (contains io q.timers)) [
    | inl made ↦ rw made c
    | inr lacking ↦ rw lacking (record {
      owned = c.owned;
      entered = c.entered;
      lengths = c.lengths;
      sorted = c.sorted;
      keyed = c.keyed;
      fits = c.fits;
    })
  ]

  -- Every operation keeps a consistent queue consistent: `push`, whether it takes the request or refuses
  -- it, `pop`, `cancel`, whatever error code its wait ended with, and `timer`.
  pub operations_keep :
      ((io : ℕ) (wait_duration : Duration) (request : V) (now : TimePoint)
        → Consistent (push io wait_duration request now q).1)
      × Consistent (pop q).1
      × ((ec : ErrorCode) (t : TimePoint) → Consistent (cancel ec t q).0)
      × ((io : ℕ) → Consistent (timer io q))
  operations_keep = (push-Consistent, pop-Consistent, cancel-Consistent, timer-Consistent)
