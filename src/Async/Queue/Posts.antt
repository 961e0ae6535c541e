-- ===== src/Async/Queue/Posts.antt =====
-- queue.hpp: what the operations of a queue post, and which request `pop` hands out.
use resource_pool.Prelude.{
  ℕ, ◌≡◌, refl, ap, ◌∙◌, inl, inr, Bool-cases, none, some, List, [], ◌∷◌, ◌++◌, map, arith,
}
use mathlib.Core.List.{append_assoc}
use resource_pool.Error.{ErrorCode, failed}
use resource_pool.TimeTraits.{TimePoint, Duration, add}
use resource_pool.Storage.Held.{cell_of}
use resource_pool.Async.Handlers.{
  Completion, run, Event, post, dispatch, cancel_timer, set_timer, wait_timer,
}
use resource_pool.Async.Queue
use resource_pool.Async.Queue.{
  Queue, QueuedValue, ExpiringRequest, update_timer, fit_capacity, spare_node, enqueue,
  expire_entries, cancel, due, not_due,
}
use resource_pool.Async.Queue.Lists.{Entries}
use resource_pool.Async.Queue.Invariant.{Consistent, spare_node-Spare}
use resource_pool.Async.Queue.Operations.{push_full, push_room, pop_empty, pop_next}
use resource_pool.Async.Queue.Refinement.{view, give_request, pop-view}

module _ {ℓ} {H : Type ℓ} where
  -- What is posted or dispatched, in order, with its context.
  abbrev pub completions : List (Event H) → List (ℕ × Completion H)
  completions [] = []
  completions (post io c ∷ es) = (io, c) ∷ completions es
  completions (dispatch io c ∷ es) = (io, c) ∷ completions es
  completions (cancel_timer io ∷ es) = completions es
  completions (set_timer io t ∷ es) = completions es
  completions (wait_timer io t ∷ es) = completions es

  pub completions-append :
      (es fs : List (Event H)) → completions (es ++ fs) ≡ completions es ++ completions fs
  completions-append [] fs = refl
  completions-append (post io c ∷ es) fs = ap (λ cs. (io, c) ∷ cs) (completions-append es fs)
  completions-append (dispatch io c ∷ es) fs = ap (λ cs. (io, c) ∷ cs) (completions-append es fs)
  completions-append (cancel_timer io ∷ es) fs = completions-append es fs
  completions-append (set_timer io t ∷ es) fs = completions-append es fs
  completions-append (wait_timer io t ∷ es) fs = completions-append es fs

  completions-cancel_timer : (timers : List ℕ) → completions (map cancel_timer timers) ≡ []
  completions-cancel_timer [] = refl
  completions-cancel_timer (io ∷ timers) = completions-cancel_timer timers

  pub update_timer-completions : (q : Queue H) → completions (update_timer q).1 ≡ []
  unfolding update_timer
  update_timer-completions q = by_entries q.expirations refl
    where
      by_entries : (es : Entries) → q.expirations ≡ es → completions (update_timer q).1 ≡ []
      by_entries [] e = rw e (completions-cancel_timer q.timers)
      by_entries ((t, n) ∷ rest) e = rw e refl

module _ {ℓ} {H : Type ℓ} (q : Queue H) where
  pub pop-completions : completions (Queue.pop q).2 ≡ []
  pop-completions = by_ordered q.ordered refl
    where
      by_ordered : (ns : List ℕ) → q.ordered ≡ ns → completions (Queue.pop q).2 ≡ []
      by_ordered [] e = rw (pop_empty q e) refl
      by_ordered (n ∷ rest) e =
          rw (pop_next q n rest e) (update_timer-completions (Queue.dequeue n rest q))

  pub pop_first :
      (r : ExpiringRequest H) (rs : List (ExpiringRequest H))
      → view q ≡ r ∷ rs
      → ((Queue.pop q).0 ≡ some (record { request = r.request; io_context = r.io_context }))
        × (view (Queue.pop q).1 ≡ rs)
  pop_first r rs e =
      let x = pop-view q ∙ ap give_request e in
      (unfold give_request in ap (λ y. y.0) x, unfold give_request in ap (λ y. y.1) x)

  pub pop_nobody : view q ≡ [] → ((Queue.pop q).0 ≡ none) × (view (Queue.pop q).1 ≡ [])
  pop_nobody e =
      let x = pop-view q ∙ ap give_request e in
      (unfold give_request in ap (λ y. y.0) x, unfold give_request in ap (λ y. y.1) x)

pub push-completions {ℓ} :
    {H : Type ℓ} (q : Queue.Queue H) (c : Consistent q) (io : ℕ) (wait_duration : Duration) (h : H)
    (now : TimePoint)
    → completions (Queue.push io wait_duration h now q).2 ≡ []
push-completions q c io wait_duration h now = elim (Bool-cases (fit_capacity q)) [
  | inl fits ↦
      let s = spare_node-Spare q c in
      rw (push_room q io wait_duration h now (ground arith) s.node s.others s.at_front) (
        update_timer-completions
          (enqueue io (add now wait_duration) h s.node s.others (spare_node q)))
  | inr full ↦ rw (push_full q io wait_duration h now (ground arith)) refl
]

module _ {ℓ} {H : Type ℓ} where
  -- The cells that calls of handlers carry.
  abbrev pub cells_of : List (ℕ × Completion H) → List ℕ
  cells_of [] = []
  cells_of ((io, c) ∷ cs) = cell_of (run c).cell ++ cells_of cs

  pub cells_of-append :
      (cs ds : List (ℕ × Completion H)) → cells_of (cs ++ ds) ≡ cells_of cs ++ cells_of ds
  cells_of-append [] ds = refl
  cells_of-append ((io, c) ∷ cs) ds = simp (cells_of-append cs ds, append_assoc)

  expire_entries-cells :
      (es : Entries) (q : Queue H) → cells_of (completions (expire_entries es q).1) ≡ []
  unfolding expire_entries run
  expire_entries-cells [] q = refl
  expire_entries-cells ((t, n) ∷ rest) q = expire_entries-cells rest _

  -- The end of a wait gives nobody a cell.
  pub cancel-cells :
      (q : Queue H) (ec : ErrorCode) (t : TimePoint) → cells_of (completions (cancel ec t q).1) ≡ []
  unfolding cancel
  cancel-cells q ec t = elim (Bool-cases (failed ec)) [
    | inl failing ↦ rw failing refl
    | inr fine ↦
        let r = expire_entries (due t q.expirations) q in
        let q' = record r.0 { expirations = not_due t r.0.expirations } in
        rw
          (
            fine,
            completions-append r.1 (update_timer q').1,
            update_timer-completions q',
            cells_of-append (completions r.1) [],
            expire_entries-cells (due t q.expirations) q,
          )
          refl
  ]
