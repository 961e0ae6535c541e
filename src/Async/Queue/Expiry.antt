-- ===== src/Async/Queue/Expiry.antt =====
-- queue.hpp: the waits that `update_timer` sets end one after the other, until nobody waits.
use resource_pool.Prelude.{
  ℕ, zero, suc, ◌+◌, ◌<◌, ◌≤◌, ◌==◌, ◌≡◌, refl, sym, ap, ◌∙◌, subst, false, inl, inr, Bool,
  Bool-cases, true, Option, none, some, List, [], ◌∷◌, ◌++◌, map, length, count, erase, arith,
}
use resource_pool.Prelude.Int.{leb_ℤ}
use resource_pool.Error.{success, failed}
use resource_pool.TimeTraits.{TimePoint, Duration, add}
use resource_pool.Async.Handlers.{Event, post, dispatch, cancel_timer, set_timer, wait_timer}
use resource_pool.Async.Queue.{
  Queue, ExpiringRequest, update_timer, push, fit_capacity, expire_entries, due, not_due, cancel,
  enqueue_spare, spare_node,
}
use resource_pool.Async.Queue.Lists.{Entries, nodes_of, Keyed}
use resource_pool.Async.Queue.Invariant.{Consistent, update_timer_lem}
use resource_pool.Async.Queue.Operations.{push-Consistent, cancel-Consistent}
use resource_pool.Async.Queue.Refinement.{view, still_waiting, cancel-view, length-map}
use resource_pool.Async.Queue.Conservation.{calls, waiting, calls-append, cancel-conserves}

module _ {ℓ} {H : Type ℓ} where
  -- The time of the wait that events leave set.
  abbrev pub awaited : List (Event H) → Option TimePoint
  awaited [] = none
  awaited (post io c ∷ es) = awaited es
  awaited (dispatch io c ∷ es) = awaited es
  awaited (cancel_timer io ∷ es) = awaited es
  awaited (set_timer io t ∷ es) = awaited es
  awaited (wait_timer io t ∷ es) = some t

  -- The time at which the first request expires.
  abbrev pub earliest : Queue H → Option TimePoint
  earliest q = elim q.expirations [ [] ↦ none | (t, n) ∷ rest ↦ some t ]

  -- The wait that was set last comes to its end, then the one that this sets, and so on.
  unfoldable pub fires : ℕ → Option TimePoint → Queue H → Queue H × List (Event H)
  fires zero wait q = (q, [])
  fires (suc n) none q = (q, [])
  fires (suc n) (some t) q =
      let r = cancel success t q in let s = fires n (awaited r.1) r.0 in (s.0, r.1 ++ s.1)

awaited-cancel_timer {ℓ} :
    (H : Type ℓ) (timers : List ℕ) → awaited (map {B = Event H} cancel_timer timers) ≡ none
awaited-cancel_timer H [] = refl
awaited-cancel_timer H (io ∷ timers) = awaited-cancel_timer H timers

module _ {ℓ} {H : Type ℓ} where
  awaited-update_timer : (q : Queue H) → awaited (update_timer q).1 ≡ earliest (update_timer q).0
  awaited-update_timer q =
      let (timers, same) = update_timer_lem q in by_entries q.expirations refl timers same
    where
      by_entries :
          (es : Entries)
          → q.expirations ≡ es
          → (timers : List ℕ) → (update_timer q).0 ≡ record q { timers = timers }
          → awaited (update_timer q).1 ≡ earliest (update_timer q).0
      by_entries [] e timers same =
          let none_set : awaited (update_timer q).1 ≡ none =
            unfold update_timer in rw e (awaited-cancel_timer H q.timers) in
          let none_due : earliest (update_timer q).0 ≡ none = rw (same, e) refl in
          none_set ∙ sym none_due
      by_entries ((t, n) ∷ rest) e timers same =
          let one_set : awaited (update_timer q).1 ≡ some t = unfold update_timer in rw e refl in
          let one_due : earliest (update_timer q).0 ≡ some t = rw (same, e) refl in
          one_set ∙ sym one_due

  awaited-expire_entries :
      (es : Entries) (q : Queue H) (l : List (Event H))
      → awaited ((expire_entries es q).1 ++ l) ≡ awaited l
  unfolding expire_entries
  awaited-expire_entries [] q l = refl
  awaited-expire_entries ((t, n) ∷ rest) q l =
      awaited-expire_entries rest
        (record q { requests_pool = n ∷ q.requests_pool; ordered = erase n q.ordered }) l

  -- `cancel` and a `push` that takes its request leave a wait for the first request that expires.
  awaited-cancel :
      (q : Queue H) (t : TimePoint)
      → awaited (cancel success t q).1 ≡ earliest (cancel success t q).0
  unfolding cancel failed
  awaited-cancel q t =
      let (q', posted) = expire_entries (due t q.expirations) q in
      let q'' = record q' { expirations = not_due t q'.expirations } in
      awaited-expire_entries (due t q.expirations) q (update_timer q'').1 ∙ awaited-update_timer q''

  awaited-push :
      (q : Queue H) (io : ℕ) (wait_duration : Duration) (request : H) (now : TimePoint)
      → let r = push io wait_duration request now q in r.0 ≡ true → awaited r.2 ≡ earliest r.1
  unfolding push
  awaited-push q io wait_duration request now taken = elim (Bool-cases (fit_capacity q)) [
    | inl fits ↦
        rw fits
          (awaited-update_timer (enqueue_spare io (add now wait_duration) request (spare_node q)))
    | inr full ↦ let refused : false ≡ true = rw full at taken in absurd (cc)
  ]

pub fewer_wait {ℓ} :
    {V : Type ℓ} (t : TimePoint) (rs : List (ExpiringRequest V))
    → length (still_waiting t rs) ≤ length rs
unfolding still_waiting
fewer_wait t [] = omega arith
fewer_wait t (r ∷ rs) =
    let more = fewer_wait t rs in
    elim (Bool-cases (leb_ℤ r.expires_at t)) [
      | inl due ↦ rw due (omega (arith, more))
      | inr early ↦ rw early (omega (arith, more))
    ]

module _ {ℓ} {H : Type ℓ} where
  some_leave :
      (f : ℕ → ExpiringRequest H) (t : TimePoint) (n : ℕ) (l : List ℕ)
      → 0 < count n l
      → leb_ℤ (f n).expires_at t ≡ true
      → length (still_waiting t (map f l)) < length (map f l)
  unfolding still_waiting
  some_leave f t n [] has due = absurd (omega arith)
  some_leave f t n (m ∷ l) has due = elim (Bool-cases (n == m)) [
    | inl hit ↦
        let e : n ≡ m = ground arith in
        let due' = subst (λ d. leb_ℤ (f d).expires_at t ≡ true) e due in
        rw due' (omega (arith, fewer_wait t (map f l)))
    | inr miss ↦
        let more = some_leave f t n l (ground arith) due in
        elim (Bool-cases (leb_ℤ (f m).expires_at t)) [
          | inl gone ↦ rw gone (omega (arith, more))
          | inr stays ↦ rw stays (omega (arith, more))
        ]
  ]

  -- What a queue keeps, and what it has to lose, when its wait ends.
  record Fired (q : Queue H) (r : Queue H × List (Event H)) : Type ℓ where
    consistent : Consistent r.0
    conserves :
        (chosen : H → Bool) → calls chosen r.1 + waiting chosen (view r.0) ≡ waiting chosen (view q)
    fewer : (n : ℕ) → length (view q) ≤ suc n → length (view r.0) ≤ n

  cancel-Fired :
      (q : Queue H)
      → Consistent q
      → (t : TimePoint) (n : ℕ) (rest : Entries) → q.expirations ≡ (t, n) ∷ rest
      → Fired q (cancel success t q)
  unfolding failed
  cancel-Fired q c t n rest e =
      let k = subst (Keyed (λ d. (q.requests d).expires_at)) e c.keyed in
      let leaves : length (view (cancel success t q).0) < length (view q) =
        rw ((cancel-view q c success t).0) (
          some_leave q.requests t n q.ordered
            (ground (arith, c.entered n, ap (λ l. count n (nodes_of l)) e))
            (ground (arith, k.0))) in
      record {
        consistent = cancel-Consistent q c success t;
        conserves = λ chosen. cancel-conserves chosen q c success t;
        fewer = λ k h. omega (arith, h, leaves);
      }

  -- Nobody waits in the end, and everybody has been called.
  Emptied : Queue H → Queue H × List (Event H) → Type ℓ
  Emptied q r = (view r.0 ≡ []) × ((chosen : H → Bool) → calls chosen r.1 ≡ waiting chosen (view q))

  nobody_waits : (rs : List (ExpiringRequest H)) → length rs ≤ 0 → rs ≡ []
  nobody_waits [] few = refl
  nobody_waits (r ∷ rs) few = absurd (omega arith)

  idle-Emptied : (q : Queue H) → length (view q) ≤ 0 → Emptied q (q, [])
  unfolding Emptied
  idle-Emptied q few = let e = nobody_waits (view q) few in (e, λ chosen. rw e refl)

  fires-Emptied :
      (n : ℕ)
      → ((q : Queue H) → Consistent q → length (view q) ≤ n → Emptied q (fires n (earliest q) q))
      → (q : Queue H) → Consistent q
      → length (view q) ≤ suc n
      → Emptied q (fires (suc n) (earliest q) q)
  unfolding fires Emptied
  fires-Emptied n others q c few = by_entries q.expirations refl
    where
      by_entries : (es : Entries) → q.expirations ≡ es → Emptied q (fires (suc n) (earliest q) q)
      by_entries [] e = rw e (
          idle-Emptied q (
            omega (
              arith,
              c.lengths,
              ap (length {A = TimePoint × ℕ}) e,
              length-map q.requests q.ordered,
            )))
      by_entries ((t, m) ∷ rest) e =
          let a = cancel-Fired q c t m rest e in
          let r = cancel success t q in
          let (nobody, all) = others r.0 a.consistent (a.fewer n few) in
          let first : earliest q ≡ some t = rw e refl in
          subst (Emptied q)
            (sym (
              ap (λ wait. fires (suc n) wait q) first
              ∙ ap (λ wait. let s = fires n wait r.0 in (s.0, r.1 ++ s.1)) (awaited-cancel q t)))
            (
              nobody,
              λ chosen. omega (
                arith,
                calls-append chosen r.1 (fires n (earliest r.0) r.0).1,
                all chosen,
                a.conserves chosen,
              ),
            )

  fires_lem :
      (n : ℕ) (q : Queue H)
      → Consistent q
      → length (view q) ≤ n
      → Emptied q (fires n (earliest q) q)
  unfolding fires
  fires_lem zero q c few = idle-Emptied q few
  fires_lem (suc n) q c few = fires-Emptied n (fires_lem n) q c few

  -- When a consistent queue has taken a request, and then only the wait that was set last ends, each time:
  -- first the one that `push` has set, then the one that each `cancel` sets again, at most as many ends
  -- as requests leave nobody waiting, and any chosen handlers are called as many times as they waited.
  pub fires_all :
      (n : ℕ) (q : Queue H)
      → Consistent q
      → (io : ℕ) (wait_duration : Duration) (request : H) (now : TimePoint)
      → let r = push io wait_duration request now q in
        r.0 ≡ true
        → length (view r.1) ≤ n
        → (view (fires n (awaited r.2) r.1).0 ≡ [])
          × ((chosen : H → Bool)
              → calls chosen (fires n (awaited r.2) r.1).1 ≡ waiting chosen (view r.1))
  unfolding Emptied
  fires_all n q c io wait_duration request now taken few =
      let r = push io wait_duration request now q in
      rw (awaited-push q io wait_duration request now taken)
        (fires_lem n r.1 (push-Consistent q c io wait_duration request now) few)
