-- ===== src/Async/Queue/Refinement.antt =====
-- queue.hpp: what a queue promises, told of the list of the waiting requests alone, and that the
-- lists of nodes, the multimap and the spare nodes implement it.
use resource_pool.Prelude.{
  ℕ, suc, ◌<◌, ◌≤◌, ltb, ◌==◌, if◌then◌else◌, ◌≡◌, refl, sym, ap, ap₂, ◌∙◌, inl, inr, Bool, true,
  false, none, some, Option, Bool-cases, List, [], ◌∷◌, ◌++◌, map, length, count, erase, arith,
}
use resource_pool.Prelude.Int.{leb_ℤ}
use resource_pool.Error.{ErrorCode, failed}
use resource_pool.TimeTraits.{TimePoint, Duration, add}
use resource_pool.Async.Queue.{
  Queue, QueuedValue, ExpiringRequest, size, update_timer, spare_node, enqueue, push, dequeue, pop,
  expire_entries, cancel, due, not_due,
}
use resource_pool.Async.Queue.Lists.{Entries, nodes_of, count-due, due-key, not_due-key}
use resource_pool.Async.Queue.Invariant.{Consistent, update_timer_lem, Spare, spare_node-Spare}
use resource_pool.Async.Queue.Operations.{
  expire_entries-Expired, push_full, push_room, pop_empty, pop_next,
}

module _ {ℓ} {V : Type ℓ} where
  -- The requests that wait, the first to come first.
  abbrev pub view : Queue V → List (ExpiringRequest V)
  view q = map q.requests q.ordered

  -- A queue of a capacity takes a request at its end, or refuses it.
  unfoldable pub take_request :
      ℕ → ExpiringRequest V → List (ExpiringRequest V) → Bool × List (ExpiringRequest V)
  take_request capacity r rs =
      if ltb (length rs) capacity then (true, rs ++ r ∷ []) else (false, rs)

  -- It gives the first one.
  unfoldable pub give_request :
      List (ExpiringRequest V) → Option (QueuedValue V) × List (ExpiringRequest V)
  give_request [] = (none, [])
  give_request (r ∷ rs) = (some (record { request = r.request; io_context = r.io_context }), rs)

  -- The requests whose time has not come.
  unfoldable pub still_waiting : TimePoint → List (ExpiringRequest V) → List (ExpiringRequest V)
  still_waiting t [] = []
  still_waiting t (r ∷ rs) =
      let more = still_waiting t rs in if leb_ℤ r.expires_at t then more else r ∷ more

module _ {ℓ} {V : Type ℓ} (f : ℕ → ExpiringRequest V) where
  pub length-map : (l : List ℕ) → length (map f l) ≡ length l
  length-map [] = refl
  length-map (n ∷ l) = ap suc (length-map l)

  map-append : (l m : List ℕ) → map f (l ++ m) ≡ map f l ++ map f m
  map-append [] m = refl
  map-append (n ∷ l) m = ap (λ rs. f n ∷ rs) (map-append l m)

  map_same :
      (g : ℕ → ExpiringRequest V) (l : List ℕ)
      → ((n : ℕ) → 0 < count n l → f n ≡ g n)
      → map f l ≡ map g l
  map_same g [] same = refl
  map_same g (n ∷ l) same =
      ap₂ (λ r rs. r ∷ rs) (same n (ground arith)) (map_same g l (λ d h. same d (ground arith)))

  still_waiting-erase :
      (t : TimePoint) (n : ℕ) (l : List ℕ)
      → leb_ℤ (f n).expires_at t ≡ true
      → still_waiting t (map f (erase n l)) ≡ still_waiting t (map f l)
  unfolding still_waiting erase
  still_waiting-erase t n [] h = refl
  still_waiting-erase t n (m ∷ l) h = elim (Bool-cases (n == m)) [
    | inl hit ↦ let e : n ≡ m = ground arith in rw (hit, ← e, h) refl
    | inr miss ↦ rw (miss, still_waiting-erase t n l h) refl
  ]

  still_waiting_all :
      (t : TimePoint) (l : List ℕ)
      → ((n : ℕ) → 0 < count n l → leb_ℤ (f n).expires_at t ≡ false)
      → still_waiting t (map f l) ≡ map f l
  unfolding still_waiting
  still_waiting_all t [] late = refl
  still_waiting_all t (n ∷ l) late =
      rw (late n (ground arith), still_waiting_all t l (λ d h. late d (ground arith))) refl

module _ {ℓ} {V : Type ℓ} where
  pub update_timer-view : (q : Queue V) → view (update_timer q).0 ≡ view q
  update_timer-view q = rw (update_timer_lem q).1 refl

  expire_entries-waiting :
      (t : TimePoint) (es : Entries) (q : Queue V)
      → ((n : ℕ) → 0 < count n (nodes_of es) → leb_ℤ (q.requests n).expires_at t ≡ true)
      → still_waiting t (view (expire_entries es q).0) ≡ still_waiting t (view q)
  unfolding expire_entries
  expire_entries-waiting t [] q late = refl
  expire_entries-waiting t ((k, n) ∷ rest) q late =
      expire_entries-waiting t rest
        (record q { requests_pool = n ∷ q.requests_pool; ordered = erase n q.ordered })
        (λ d h. late d (ground arith))
      ∙ still_waiting-erase q.requests t n q.ordered (late n (ground arith))

module _ {ℓ} {V : Type ℓ} where
  Spare-view : (q : Queue V) (c : Consistent q) (q' : Queue V) → Spare q c q' → view q' ≡ view q
  Spare-view q c q' s =
      rw s.same_ordered (map_same q'.requests q.requests q.ordered s.same_requests)

  enqueue-view :
      (io : ℕ) (t : TimePoint) (request : V) (n : ℕ) (rest : List ℕ) (q : Queue V)
      → Consistent q
      → q.requests_pool ≡ n ∷ rest
      → view (enqueue io t request n rest q)
        ≡ view q ++ record { io_context = io; request = request; expires_at = t } ∷ []
  unfolding enqueue
  enqueue-view io t request n rest q c e =
      map-append _ q.ordered (n ∷ [])
      ∙ ap₂ (λ rs r. rs ++ r ∷ [])
          (map_same _ q.requests q.ordered (λ d h.
            let ne : (d == n) ≡ false = ground (arith, c.owned d, ap (count d) e) in rw ne refl))
          (let same : (n == n) ≡ true = ground arith in rw same refl)

  pub due_waits :
      (n : ℕ) (t : TimePoint) (q : Queue V)
      → Consistent q
      → count n (nodes_of (due t q.expirations)) ≤ count n q.ordered
  due_waits n t q c = ground (arith, c.entered n, count-due n t q.expirations)

module _ {ℓ} {V : Type ℓ} (q : Queue V) where
  -- A queue hands out a request as a list does at its head, with the context of the request, and
  -- nothing when no request waits.
  pub pop-view : ((pop q).0, view (pop q).1) ≡ give_request (view q)
  unfolding give_request
  pop-view = by_ordered q.ordered refl
    where
      by_ordered :
          (ns : List ℕ) → q.ordered ≡ ns → ((pop q).0, view (pop q).1) ≡ give_request (view q)
      by_ordered [] e = rw (pop_empty q e, e) refl
      by_ordered (n ∷ rest) e =
          let v = update_timer-view (dequeue n rest q) in
          rw (pop_next q n rest e, v, e) (unfold dequeue in refl)

  module _ (c : Consistent q) where
    pub size-view : size q ≡ length (view q)
    unfolding size
    size-view = c.lengths ∙ sym (length-map q.requests q.ordered)

    -- A consistent queue whose lists hold fewer requests than its capacity takes a request behind all
    -- others, with the time it expires, and says so; a full one says that it refuses, is left as it is in
    -- every part, and asks nothing of its timers.
    pub push-view :
        (io : ℕ) (wait_duration : Duration) (request : V) (now : TimePoint)
        → let r = push io wait_duration request now q in
          ((r.0, view r.1)
            ≡ take_request q.capacity
                (record { io_context = io; request = request; expires_at = add now wait_duration })
                (view q))
          × (q.capacity ≤ length (view q) → r ≡ (false, q, []))
    unfolding take_request
    push-view io wait_duration request now =
        let len = length-map q.requests q.ordered in
        (
          elim (Bool-cases (ltb (length (view q)) q.capacity)) [
            | inl fits ↦
                let room : length q.expirations < q.capacity = ground (arith, len, c.lengths) in
                let s = spare_node-Spare q c in
                rw (push_room q io wait_duration request now room s.node s.others s.at_front, fits)
                  (ap (λ rs. (true, rs))
                    (update_timer-view _
                      ∙ enqueue-view io (add now wait_duration) request s.node s.others
                          (spare_node q) s.consistent s.at_front
                      ∙ ap
                          (λ rs.
                            rs
                            ++ record {
                              io_context = io;
                              request = request;
                              expires_at = add now wait_duration;
                            }
                              ∷ [])
                          (Spare-view q c (spare_node q) s)))
            | inr full ↦
                rw (push_full q io wait_duration request now (ground (arith, len, c.lengths)), full)
                  refl
          ],
          λ full. push_full q io wait_duration request now (ground (arith, len, c.lengths)),
        )

    -- When a timer ends, the requests that are due by the time it was set to leave a consistent queue,
    -- and the others stay in the order they came in; when its wait fails the queue is left as it is in
    -- every part, nobody is called, and no timer is set or cancelled.
    pub cancel-view :
        (ec : ErrorCode) (t : TimePoint)
        → (view (cancel ec t q).0 ≡ (if failed ec then view q else still_waiting t (view q)))
          × (failed ec ≡ true → cancel ec t q ≡ (q, []))
    unfolding cancel
    cancel-view ec t = (
      elim (Bool-cases (failed ec)) [
        | inl failing ↦ rw failing refl
        | inr fine ↦
            let h = expire_entries-Expired (due t q.expirations) q (λ n. due_waits n t q c) in
            let q' = (expire_entries (due t q.expirations) q).0 in
            rw fine (
              update_timer-view (record q' { expirations = not_due t q'.expirations })
              ∙ sym (
                  still_waiting_all _ t _ (λ n m. rw h.same_requests (
                    not_due-key _ n t q.expirations c.sorted c.keyed
                      (ground (arith, h.leaves n, c.entered n, count-due n t q.expirations)))))
              ∙ expire_entries-waiting t (due t q.expirations) q
                  (λ n m. due-key _ n t q.expirations c.keyed m))
      ],
      λ failing. rw failing refl,
    )
