-- ===== src/Async/Queue/Invariant.antt =====
-- queue.hpp: the invariant of the two lists, the multimap and the requests, kept by every
-- operation of the queue.
use resource_pool.Prelude.{
  ℕ, ◌+◌, ◌<◌, ◌≤◌, ltb, if◌then◌else◌, ◌≡◌, refl, sym, ap, subst, inl, inr, Bool-cases, List, [],
  ◌∷◌, length, length-append, count, count-append, contains, arith,
}
use resource_pool.TimeTraits.{TimePoint}
use resource_pool.Async.Queue.{Queue, make, get_timer, update_timer, spare_node, enqueue, dequeue}
use resource_pool.Async.Queue.Lists.{
  Entries, nodes_of, Sorted, Keyed, count-insert, length-insert, insert-Sorted, insert-Keyed,
  Keyed-change, count-erase_entry, length-erase_entry, erase_entry-Sorted, erase_entry-Keyed,
}

-- Every node is in exactly one of the two lists, the queued ones are those that the multimap points
-- at, its entries stand in the order of their keys, and each key is the time its request expires.
pub record Consistent {ℓ} {V : Type ℓ} (q : Queue V) : Type 0 where
  pub owned :
      (n : ℕ) → count n q.ordered + count n q.requests_pool ≡ (if ltb n q.nodes then 1 else 0)
  pub entered : (n : ℕ) → count n (nodes_of q.expirations) ≡ count n q.ordered
  pub lengths : length q.expirations ≡ length q.ordered
  pub sorted : Sorted q.expirations
  pub keyed : Keyed (λ n. (q.requests n).expires_at) q.expirations
  pub fits : length q.expirations ≤ q.capacity

module _ {ℓ} {V : Type ℓ} where
  pub make-Consistent : (capacity : ℕ) (blank : V) → Consistent (make capacity blank)
  unfolding make
  make-Consistent capacity blank = record {
    owned = λ n. ground arith;
    entered = λ n. refl;
    lengths = refl;
    sorted = tt;
    keyed = tt;
    fits = omega arith;
  }

module _ {ℓ} {V : Type ℓ} (q : Queue V) where
  -- `update_timer` changes nothing but the timers.
  pub update_timer_lem : (timers : List ℕ) × ((update_timer q).0 ≡ record q { timers = timers })
  unfolding update_timer get_timer
  update_timer_lem = by_entries q.expirations refl
    where
      by_entries :
          (es : Entries)
          → q.expirations ≡ es
          → (timers : List ℕ) × ((update_timer q).0 ≡ record q { timers = timers })
      by_entries [] e = ([], rw e refl)
      by_entries ((t, n) ∷ rest) e =
          elim (Bool-cases (contains (q.requests n).io_context q.timers)) [
            | inl made ↦ (q.timers, rw (e, made) refl)
            | inr lacking ↦ ((q.requests n).io_context ∷ q.timers, rw (e, lacking) refl)
          ]

  pub update_timer-Consistent : Consistent q → Consistent (update_timer q).0
  update_timer-Consistent c =
      let (timers, e) = update_timer_lem in
      subst Consistent (sym e) (record {
        owned = c.owned;
        entered = c.entered;
        lengths = c.lengths;
        sorted = c.sorted;
        keyed = c.keyed;
        fits = c.fits;
      })

module _ {ℓ} {V : Type ℓ} (q : Queue V) (c : Consistent q) where
  -- A spare node stands first, and nothing is changed for the requests in the queue.
  pub record Spare (q' : Queue V) : Type ℓ where
    pub node : ℕ
    pub others : List ℕ
    pub at_front : q'.requests_pool ≡ node ∷ others
    pub consistent : Consistent q'
    pub same_ordered : q'.ordered ≡ q.ordered
    pub same_expirations : q'.expirations ≡ q.expirations
    pub same_capacity : q'.capacity ≡ q.capacity
    pub same_requests : (n : ℕ) → 0 < count n q.ordered → q'.requests n ≡ q.requests n

  pub spare_node-Spare : Spare (spare_node q)
  spare_node-Spare = by_pool q.requests_pool refl
    where
      present : (n : ℕ) (ns : List ℕ) → q.requests_pool ≡ n ∷ ns → spare_node q ≡ q
      present n ns e = unfold spare_node in rw e refl

      by_pool : (ns : List ℕ) → q.requests_pool ≡ ns → Spare (spare_node q)
      by_pool (n ∷ ns) e = subst Spare (sym (present n ns e)) (record {
        node = n;
        others = ns;
        at_front = e;
        consistent = c;
        same_ordered = refl;
        same_expirations = refl;
        same_capacity = refl;
        same_requests = λ m h. refl;
      })
      by_pool [] e =
          unfold spare_node in
          rw e (record {
            node = q.nodes;
            others = [];
            at_front = refl;
            consistent = record {
              owned = λ n. ground (arith, c.owned n, ap (count n) e);
              entered = c.entered;
              lengths = c.lengths;
              sorted = c.sorted;
              keyed =
                  Keyed-change _ _ q.expirations (λ n h. ground (arith, c.entered n, c.owned n))
                    c.keyed;
              fits = c.fits;
            };
            same_ordered = refl;
            same_expirations = refl;
            same_capacity = refl;
            same_requests = λ n h. ground (arith, c.owned n);
          })

  module _ (n : ℕ) (rest : List ℕ) where
    pub enqueue-Consistent :
        (io : ℕ) (t : TimePoint) (request : V)
        → q.requests_pool ≡ n ∷ rest
        → length q.expirations < q.capacity
        → Consistent (enqueue io t request n rest q)
    unfolding enqueue
    enqueue-Consistent io t request e room = record {
      owned = λ d. ground (arith, c.owned d, ap (count d) e, count-append d q.ordered (n ∷ []));
      entered = λ d.
          ground (
            arith,
            c.entered d,
            count-insert d n t q.expirations,
            count-append d q.ordered (n ∷ []),
          );
      lengths =
          ground
            (arith, c.lengths, length-insert n t q.expirations, length-append q.ordered (n ∷ []));
      sorted = insert-Sorted t n q.expirations c.sorted;
      keyed = insert-Keyed _ t n q.expirations (ground arith) (
          Keyed-change _ _ q.expirations
            (λ d h. ground (arith, c.entered d, c.owned d, ap (count d) e)) c.keyed);
      fits = ground (arith, length-insert n t q.expirations);
    }

    pub dequeue-Consistent : q.ordered ≡ n ∷ rest → Consistent (dequeue n rest q)
    unfolding dequeue
    dequeue-Consistent e = record {
      owned = λ d. ground (arith, c.owned d, ap (count d) e);
      entered = λ d.
          ground (arith, c.entered d, ap (count d) e, count-erase_entry d n q.expirations held);
      lengths =
          ground (arith, c.lengths, ap (length {A = ℕ}) e, length-erase_entry n q.expirations held);
      sorted = erase_entry-Sorted n q.expirations c.sorted;
      keyed = erase_entry-Keyed _ n q.expirations c.keyed;
      fits = ground (arith, c.fits, length-erase_entry n q.expirations held);
    }
      where
        held : 0 < count n (nodes_of q.expirations)
        held = ground (arith, c.entered n, ap (count n) e)
