-- ===== src/Async/Queue.antt =====
-- include/yamail/resource_pool/async/detail/queue.hpp: requests in the order of their arrival, and
-- in the order in which they expire.
--
-- A request stands in a list node, which keeps its address while it moves between the list of
-- queued requests and the pool of spare nodes. The multimap is the list of its entries in order;
-- an entry is a time and the address of a request, and an iterator to it is known by that address.
pub mod Lists
pub mod Invariant
pub mod Operations
pub mod Refinement
pub mod Conservation
pub mod Timers
pub mod Posts
pub mod Expiry
pub mod Deadlines
use resource_pool.Prelude.{
  ℕ, suc, ◌+◌, ◌<◌, ltb, ◌==◌, if◌then◌else◌, not, Bool, true, false, Option, none, some, List, [],
  ◌∷◌, ◌++◌, map, length, is_empty, contains, erase,
}
use resource_pool.Prelude.Int.{leb_ℤ}
use resource_pool.Error.{ErrorCode, failed}
use resource_pool.TimeTraits.{TimePoint, Duration, epoch, add}
use resource_pool.Async.Handlers.{
  Completion, expired_handler, Event, post, cancel_timer, set_timer, wait_timer,
}

pub record QueuedValue {ℓ} (V : Type ℓ) : Type ℓ where
  pub request : V
  pub io_context : ℕ

-- `order_it` is the node's own address, and `expires_at` the key of the entry that `expires_at_it`
-- points at.
pub record ExpiringRequest {ℓ} (V : Type ℓ) : Type ℓ where
  pub io_context : ℕ
  pub request : V
  pub expires_at : TimePoint

-- `blank` is what the default constructor of the request type makes.
pub record Queue {ℓ} (V : Type ℓ) : Type ℓ where
  pub capacity : ℕ
  pub blank : V
  pub nodes : ℕ
  pub requests : ℕ → ExpiringRequest V
  pub requests_pool : List ℕ
  pub ordered : List ℕ
  pub expirations : List (TimePoint × ℕ)
  pub timers : List ℕ

-- `multimap::insert` puts an entry behind those with the same key.
unfoldable pub insert : TimePoint → ℕ → List (TimePoint × ℕ) → List (TimePoint × ℕ)
insert t n [] = (t, n) ∷ []
insert t n ((k, m) ∷ rest) =
    let later = insert t n rest in if leb_ℤ k t then (k, m) ∷ later else (t, n) ∷ (k, m) ∷ rest

-- `multimap::erase` of the entry of a request.
unfoldable pub erase_entry : ℕ → List (TimePoint × ℕ) → List (TimePoint × ℕ)
erase_entry n [] = []
erase_entry n ((k, m) ∷ rest) =
    let later = erase_entry n rest in if n == m then rest else (k, m) ∷ later

-- The entries before and from `upper_bound(t)` on.
unfoldable pub due : TimePoint → List (TimePoint × ℕ) → List (TimePoint × ℕ)
due t [] = []
due t ((k, m) ∷ rest) = let more = due t rest in if leb_ℤ k t then (k, m) ∷ more else []

unfoldable pub not_due : TimePoint → List (TimePoint × ℕ) → List (TimePoint × ℕ)
not_due t [] = []
not_due t ((k, m) ∷ rest) = let more = not_due t rest in if leb_ℤ k t then more else (k, m) ∷ rest

module _ {ℓ} {V : Type ℓ} where
  unfoldable pub make : ℕ → V → Queue V
  make capacity blank = record {
    capacity = capacity;
    blank = blank;
    nodes = 0;
    requests = λ _. record { io_context = 0; request = blank; expires_at = epoch };
    requests_pool = [];
    ordered = [];
    expirations = [];
    timers = [];
  }

  unfoldable pub size : Queue V → ℕ
  size q = length q.expirations

  unfoldable pub empty : Queue V → Bool
  empty q = is_empty q.ordered

  abbrev pub fit_capacity : Queue V → Bool
  fit_capacity q = ltb (length q.expirations) q.capacity

  -- A write to one request.
  abbrev pub write : (ℕ → ExpiringRequest V) → ℕ → ExpiringRequest V → ℕ → ExpiringRequest V
  write requests n r m = if m == n then r else requests m

  -- `get_timer` makes the timer of a context that has none.
  unfoldable pub get_timer : ℕ → Queue V → Queue V
  get_timer io q = if contains io q.timers then q else record q { timers = io ∷ q.timers }

  -- `timer`, which tests use: it makes the timer as `get_timer` does.
  unfoldable pub timer : ℕ → Queue V → Queue V
  unfolding get_timer
  timer io q = get_timer io q

  unfoldable pub update_timer : Queue V → Queue V × List (Event V)
  unfolding get_timer
  update_timer q = elim q.expirations [
    | [] ↦ (record q { timers = [] }, map cancel_timer q.timers)
    | (t, n) ∷ rest ↦
        let io = (q.requests n).io_context in
        (get_timer io q, set_timer io t ∷ wait_timer io t ∷ [])
  ]

  -- `_ordered_requests_pool.emplace_back()` if there is no spare node.
  unfoldable pub spare_node : Queue V → Queue V
  spare_node q = elim q.requests_pool [
    | [] ↦ record q {
      nodes = suc q.nodes;
      requests =
          write q.requests q.nodes
            (record { io_context = 0; request = q.blank; expires_at = epoch });
      requests_pool = q.nodes ∷ [];
    }
    | n ∷ rest ↦ q
  ]

  -- The first spare node takes the request and goes to the end of the queue.
  unfoldable pub enqueue : ℕ → TimePoint → V → ℕ → List ℕ → Queue V → Queue V
  unfolding insert
  enqueue io t request n rest q = record q {
    requests = write q.requests n (record { io_context = io; request = request; expires_at = t });
    requests_pool = rest;
    ordered = q.ordered ++ n ∷ [];
    expirations = insert t n q.expirations;
  }

  unfoldable pub enqueue_spare : ℕ → TimePoint → V → Queue V → Queue V
  unfolding enqueue
  enqueue_spare io t request q = elim q.requests_pool [
    | [] ↦ q
    | n ∷ rest ↦ enqueue io t request n rest q
  ]

  unfoldable pub push : ℕ → Duration → V → TimePoint → Queue V → Bool × Queue V × List (Event V)
  unfolding update_timer spare_node enqueue_spare
  push io wait_duration request now q =
      if not (fit_capacity q)
      then (false, q, [])
      else (let (q', events) =
            update_timer (enqueue_spare io (add now wait_duration) request (spare_node q)) in
          (true, q', events))

  -- The request at the front leaves the queue, and its node is spare again.
  unfoldable pub dequeue : ℕ → List ℕ → Queue V → Queue V
  unfolding erase_entry
  dequeue n rest q = record q {
    requests_pool = n ∷ q.requests_pool;
    ordered = rest;
    expirations = erase_entry n q.expirations;
  }

  unfoldable pub pop : Queue V → Option (QueuedValue V) × Queue V × List (Event V)
  unfolding update_timer dequeue
  pop q = elim q.ordered [
    | [] ↦ (none, q, [])
    | n ∷ rest ↦
        let r = q.requests n in
        let (q', events) = update_timer (dequeue n rest q) in
        (some (record { request = r.request; io_context = r.io_context }), q', events)
  ]

  -- The loop of `cancel` over the entries that are due: each request is posted with the code of a
  -- timeout, and its node is spare again.
  unfoldable pub expire_entries : List (TimePoint × ℕ) → Queue V → Queue V × List (Event V)
  expire_entries [] q = (q, [])
  expire_entries ((t, n) ∷ rest) q =
      let r = q.requests n in
      let (q', events) =
        expire_entries rest
          (record q { requests_pool = n ∷ q.requests_pool; ordered = erase n q.ordered }) in
      (q', post r.io_context (expired_handler r.request) ∷ events)

  -- What a timer's wait calls when it ends, with its error code and the time it was set to.
  unfoldable pub cancel : ErrorCode → TimePoint → Queue V → Queue V × List (Event V)
  unfolding expire_entries update_timer due not_due
  cancel ec t q =
      if failed ec
      then (q, [])
      else (let (q', posted) = expire_entries (due t q.expirations) q in
          let (q'', events) = update_timer (record q' { expirations = not_due t q'.expirations }) in
          (q'', posted ++ events))
