-- ===== src/Async/Queue/Deadlines.antt =====
-- queue.hpp: whom `cancel` answers when a timer ends, and that the capacity of a queue never changes.
use resource_pool.Prelude.{
  ℕ, ◌≡◌, refl, ap, ◌∙◌, inl, inr, if◌then◌else◌, Bool-cases, true, false, List, [], ◌∷◌, map,
  count, erase, arith,
}
use mathlib.Core.List.{Perm}
use mathlib.Core.List.Perm
use mathlib.Core.List.{append-nil}
use resource_pool.Prelude.Bag.{SameCells, SameCells-perm}
use resource_pool.Prelude.Int.{leb_ℤ}
use resource_pool.Error.{ErrorCode, failed}
use resource_pool.TimeTraits.{TimePoint, Duration}
use resource_pool.Async.Handlers.{Completion, expired_handler}
use resource_pool.Async.Queue.{
  Queue, ExpiringRequest, fit_capacity, update_timer, enqueue, push, dequeue, pop, expire_entries,
  cancel, due, not_due,
}
use resource_pool.Async.Queue.Lists.{Entries, nodes_of, count-due, due-key, not_due-key}
use resource_pool.Async.Queue.Invariant.{Consistent, update_timer_lem, spare_node-Spare}
use resource_pool.Async.Queue.Operations.{
  expire_entries-Expired, push_full, push_room, pop_empty, pop_next,
}
use resource_pool.Async.Queue.Posts.{completions, completions-append, update_timer-completions}
use resource_pool.Async.Queue.Refinement.{view, due_waits}

module _ {ℓ} {H : Type ℓ} where
  -- The call that tells a client that its time is up.
  abbrev pub timed_out : ExpiringRequest H → ℕ × Completion H
  timed_out r = (r.io_context, expired_handler r.request)

  -- The requests whose time has come, the first to come first.
  unfoldable pub whose_time_is_up : TimePoint → List (ExpiringRequest H) → List (ExpiringRequest H)
  whose_time_is_up t [] = []
  whose_time_is_up t (r ∷ rs) =
      let more = whose_time_is_up t rs in if leb_ℤ r.expires_at t then r ∷ more else more

module _ {ℓ} {H : Type ℓ} (f : ℕ → ExpiringRequest H) (t : TimePoint) where
  -- The nodes of those requests.
  unfoldable late_nodes : List ℕ → List ℕ
  late_nodes [] = []
  late_nodes (n ∷ l) =
      let more = late_nodes l in if leb_ℤ (f n).expires_at t then n ∷ more else more

  late_nodes-map : (l : List ℕ) → whose_time_is_up t (map f l) ≡ map f (late_nodes l)
  unfolding late_nodes whose_time_is_up
  late_nodes-map [] = refl
  late_nodes-map (n ∷ l) = elim (Bool-cases (leb_ℤ (f n).expires_at t)) [
    | inl late ↦ rw (late, late_nodes-map l) refl
    | inr early ↦ rw (early, late_nodes-map l) refl
  ]

  count-late_nodes :
      (n : ℕ) (l : List ℕ)
      → count n (late_nodes l) ≡ (if leb_ℤ (f n).expires_at t then count n l else 0)
  unfolding late_nodes
  count-late_nodes n [] = ground arith
  count-late_nodes n (m ∷ l) = ground (arith, count-late_nodes n l)

module _ {ℓ} {H : Type ℓ} where
  expire_entries-answers :
      (es : Entries) (q : Queue H)
      → completions (expire_entries es q).1 ≡ map timed_out (map q.requests (nodes_of es))
  unfolding expire_entries
  expire_entries-answers [] q = refl
  expire_entries-answers ((t, n) ∷ rest) q =
      ap (λ cs. timed_out (q.requests n) ∷ cs)
        (expire_entries-answers rest
          (record q { requests_pool = n ∷ q.requests_pool; ordered = erase n q.ordered }))

module _ {ℓ} {H : Type ℓ} (q : Queue H) where
  -- The entries that are due are those of the requests whose time has come.
  due_nodes :
      Consistent q
      → (t : TimePoint)
      → SameCells (nodes_of (due t q.expirations)) (late_nodes q.requests t q.ordered)
  due_nodes c t n = ground (
    arith,
    count-late_nodes q.requests t n q.ordered,
    c.entered n,
    count-due n t q.expirations,
    due-key _ n t q.expirations c.keyed,
    not_due-key _ n t q.expirations c.sorted c.keyed,
  )

  -- The end of a wait answers those requests, in the order of the multimap.
  pub cancel-answers :
      Consistent q
      → (ec : ErrorCode) (t : TimePoint) → failed ec ≡ false
      → Perm (completions (cancel ec t q).1) (map timed_out (whose_time_is_up t (view q)))
  unfolding cancel
  cancel-answers c ec t fine =
      let r = expire_entries (due t q.expirations) q in
      let q' = record r.0 { expirations = not_due t r.0.expirations } in
      rw
        (
          fine,
          completions-append r.1 (update_timer q').1,
          update_timer-completions q',
          append-nil (completions r.1),
          expire_entries-answers (due t q.expirations) q,
          late_nodes-map q.requests t q.ordered,
        )
        (Perm.map timed_out (Perm.map q.requests (SameCells-perm _ _ (due_nodes c t))))

  pub cancel-failed : (ec : ErrorCode) (t : TimePoint) → failed ec ≡ true → cancel ec t q ≡ (q, [])
  unfolding cancel
  cancel-failed ec t failing = rw failing refl

module _ {ℓ} {V : Type ℓ} where
  update_timer-capacity : (q : Queue V) → (update_timer q).0.capacity ≡ q.capacity
  update_timer-capacity q = rw (update_timer_lem q).1 refl

module _ {ℓ} {V : Type ℓ} (q : Queue V) where
  pub pop-capacity : (pop q).1.capacity ≡ q.capacity
  pop-capacity = by_ordered q.ordered refl
    where
      by_ordered : (ns : List ℕ) → q.ordered ≡ ns → (pop q).1.capacity ≡ q.capacity
      by_ordered [] e = rw (pop_empty q e) refl
      by_ordered (n ∷ rest) e =
          rw (pop_next q n rest e)
            (update_timer-capacity (dequeue n rest q) ∙ unfold dequeue in refl)

  pub push-capacity :
      Consistent q
      → (io : ℕ) (wait_duration : Duration) (request : V) (now : TimePoint)
      → (push io wait_duration request now q).1.capacity ≡ q.capacity
  push-capacity c io wait_duration request now = elim (Bool-cases (fit_capacity q)) [
    | inl fits ↦
        let s = spare_node-Spare q c in
        rw (push_room q io wait_duration request now (ground arith) s.node s.others s.at_front)
          (update_timer-capacity _ ∙ unfold enqueue in s.same_capacity)
    | inr full ↦ rw (push_full q io wait_duration request now (ground arith)) refl
  ]

  pub cancel-capacity :
      Consistent q → (ec : ErrorCode) (t : TimePoint) → (cancel ec t q).0.capacity ≡ q.capacity
  unfolding cancel
  cancel-capacity c ec t = elim (Bool-cases (failed ec)) [
    | inl failing ↦ rw failing refl
    | inr fine ↦
        let h = expire_entries-Expired (due t q.expirations) q (λ n. due_waits n t q c) in
        let q' = (expire_entries (due t q.expirations) q).0 in
        rw fine (
          update_timer-capacity (record q' { expirations = not_due t q'.expirations })
          ∙ h.same_capacity)
  ]
