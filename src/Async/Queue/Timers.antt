-- ===== src/Async/Queue/Timers.antt =====
-- queue.hpp: which timer `update_timer` sets, the last call of each operation that changes the queue.
use resource_pool.Prelude.{
  ℕ, ◌<◌, ◌==◌, ◌≡◌, refl, ap, subst, inl, inr, Bool-cases, [], ◌∷◌, count, arith,
}
use resource_pool.Prelude.Int.{◌≤ℤ◌}
use resource_pool.TimeTraits.{TimePoint}
use resource_pool.Async.Handlers.{set_timer, wait_timer}
use resource_pool.Async.Queue.{Queue, update_timer}
use resource_pool.Async.Queue.Lists.{Entries, nodes_of, SortedFrom, Sorted, Keyed}
use resource_pool.Async.Queue.Invariant.{Consistent}

earliest :
    (key : ℕ → TimePoint) (d : ℕ) (b : TimePoint) (l : Entries)
    → SortedFrom b l
    → Keyed key l
    → 0 < count d (nodes_of l)
    → b ≤ℤ key d
earliest key d b [] s k h = absurd (omega arith)
earliest key d b ((t, m) ∷ l) s k h = elim (Bool-cases (d == m)) [
  | inl hit ↦ ground (arith, k.0, s.0)
  | inr miss ↦ let later = earliest key d t l s.1 k.1 (ground arith) in omega (arith, s.0, later)
]

module _ {ℓ} {V : Type ℓ} (q : Queue V) where
  update_timer_next :
      (t : TimePoint) (n : ℕ) (rest : Entries)
      → q.expirations ≡ (t, n) ∷ rest
      → (update_timer q).1
        ≡ set_timer (q.requests n).io_context t ∷ wait_timer (q.requests n).io_context t ∷ []
  unfolding update_timer
  update_timer_next t n rest e = rw e refl

module _ {ℓ} {V : Type ℓ} (q : Queue V) (c : Consistent q) where
  -- While a request waits in a consistent queue, `update_timer` sets one timer and waits for it: to
  -- the time at which some request that waits expires, in the context of that request, and no request
  -- that waits expires before.
  pub update_timer-earliest :
      (n : ℕ)
      → 0 < count n q.ordered
      → (m : ℕ) × (0 < count m q.ordered)
        × ((update_timer q).1
            ≡ set_timer (q.requests m).io_context (q.requests m).expires_at
              ∷ wait_timer (q.requests m).io_context (q.requests m).expires_at
              ∷ [])
        × ((q.requests m).expires_at ≤ℤ (q.requests n).expires_at)
  update_timer-earliest n waits = by_entries q.expirations refl
    where
      Answer : Type ℓ
      Answer =
          (m : ℕ) × (0 < count m q.ordered)
          × ((update_timer q).1
              ≡ set_timer (q.requests m).io_context (q.requests m).expires_at
                ∷ wait_timer (q.requests m).io_context (q.requests m).expires_at
                ∷ [])
          × ((q.requests m).expires_at ≤ℤ (q.requests n).expires_at)

      by_entries : (es : Entries) → q.expirations ≡ es → Answer
      by_entries [] e = absurd (omega (arith, c.entered n, ap (λ l. count n (nodes_of l)) e))
      by_entries ((t, m) ∷ rest) e =
          let k = subst (Keyed (λ d. (q.requests d).expires_at)) e c.keyed in
          let s = subst Sorted e c.sorted in
          (
            m,
            ground (arith, c.entered m, ap (λ l. count m (nodes_of l)) e),
            rw k.0 (update_timer_next q t m rest e),
            rw k.0 (
                earliest _ n t ((t, m) ∷ rest) (omega arith, s) k
                  (omega (arith, c.entered n, ap (λ l. count n (nodes_of l)) e))),
          )
