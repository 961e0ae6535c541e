-- ===== src/Async/PoolImpl/Promise.antt =====
-- async/detail/pool_impl.hpp: what the pool promises its clients, without its lists, nodes and timers.
-- A pool of `n` cells and a queue of `m` requests is the cells that are in use, in no order, the
-- requests that wait, in the order they came, and whether it is closed.
use resource_pool.Prelude.{ℕ, ◌<◌, ◌≡◌, Bool, true, false, List, [], ◌∷◌, ◌++◌, map, length}
use mathlib.Core.List.{Perm}
use resource_pool.Prelude.Bag.{Bag, of_list, occurrences, size, put}
use resource_pool.Error.{
  ErrorCode, success, make_error_code, disabled, get_resource_timeout, request_queue_overflow,
  failed,
}
use resource_pool.TimeTraits.{TimePoint, Duration, add}
use resource_pool.Storage.{at, singular}
use resource_pool.Async.Handlers.{Completion, run, Call, call, Event}
use resource_pool.Async.Queue.{ExpiringRequest}
use resource_pool.Async.Queue.Refinement.{view, still_waiting}
use resource_pool.Async.Queue.Posts.{completions}
use resource_pool.Async.Queue.Deadlines.{whose_time_is_up}
use resource_pool.Async.PoolImpl.{PoolImpl, is_zero}

-- What clients, timers and threads ask of a pool: the part of `get` under its mutex, the part behind
-- it, a cell that comes back, the end of a timer's wait, the start of `disable`, a round of its loop that
-- finds a request, and what no client is told of.
pub data Action {ℓ} (H : Type ℓ) : Type ℓ where
  asks : ℕ → H → Action H
  goes_on : TimePoint → ℕ → H → Duration → Action H
  gives_back : ℕ → Action H
  timer_ends : ErrorCode → TimePoint → Action H
  closes : Action H
  turns_next : Action H
  goes_unnoticed : Action H

-- A call of a client's handler, and the context that it runs in.
abbrev pub Answer {ℓ} : Type ℓ → Type ℓ
Answer H = ℕ × Call H

abbrev pub answer {ℓ} : {H : Type ℓ} → ℕ × Completion H → Answer H
answer (io, done) = (io, run done)

-- The calls that what is posted or dispatched makes, in order.
abbrev pub told {ℓ} : {H : Type ℓ} → List (Event H) → List (Answer H)
told es = map answer (completions es)

pub record Promise {ℓ} (H : Type ℓ) : Type ℓ where
  pub in_use : Bag
  pub waiting : List (ExpiringRequest H)
  pub is_closed : Bool

abbrev pub to_client {ℓ} : {H : Type ℓ} → ExpiringRequest H → ErrorCode → Answer H
to_client r ec = (r.io_context, call r.request ec singular)

-- What may follow an action: the answers, and what the pool is then.
pub data Allows {ℓ} {H : Type ℓ} (n m : ℕ) (x : Promise H)
    : Action H → List (Answer H) → Promise H → Type ℓ where
  is_off :
      (io : ℕ) (h : H)
      → x.is_closed ≡ true
      → Allows n m x (asks io h) ((io, call h (make_error_code disabled) singular) ∷ []) x
  lends :
      (io : ℕ) (h : H) (c : ℕ)
      → x.is_closed ≡ false
      → occurrences c x.in_use ≡ 0
      → size x.in_use < n
      → Allows n m x
          (asks io h)
          ((io, call h success (at c)) ∷ [])
          (record x { in_use = put c x.in_use })
  has_none :
      (io : ℕ) (h : H) → x.is_closed ≡ false → size x.in_use ≡ n → Allows n m x (asks io h) [] x
  hurries :
      (now : TimePoint) (io : ℕ) (h : H) (wait_duration : Duration)
      → is_zero wait_duration ≡ true
      → Allows n m x
          (goes_on now io h wait_duration)
          ((io, call h (make_error_code get_resource_timeout) singular) ∷ [])
          x
  queues :
      (now : TimePoint) (io : ℕ) (h : H) (wait_duration : Duration)
      → is_zero wait_duration ≡ false
      → length x.waiting < m
      → Allows n m x (goes_on now io h wait_duration) [] (record x {
        waiting =
            x.waiting
            ++ record { io_context = io; request = h; expires_at = add now wait_duration } ∷ [];
      })
  overflows :
      (now : TimePoint) (io : ℕ) (h : H) (wait_duration : Duration)
      → is_zero wait_duration ≡ false
      → length x.waiting ≡ m
      → Allows n m x
          (goes_on now io h wait_duration)
          ((io, call h (make_error_code request_queue_overflow) singular) ∷ [])
          x
  hands_on :
      (c : ℕ) (r : ExpiringRequest H) (rs : List (ExpiringRequest H))
      → 0 < occurrences c x.in_use
      → x.waiting ≡ r ∷ rs
      → Allows n m x
          (gives_back c)
          ((r.io_context, call r.request success (at c)) ∷ [])
          (record x { waiting = rs })
  takes_back :
      (c : ℕ) (rest : Bag)
      → x.waiting ≡ []
      → x.in_use ≡ put c rest
      → Allows n m x (gives_back c) [] (record x { in_use = rest })
  times_out :
      (ec : ErrorCode) (t : TimePoint) (answers : List (Answer H))
      → failed ec ≡ false
      → Perm answers (
          map
            (λ r. to_client r (make_error_code get_resource_timeout))
            (whose_time_is_up t x.waiting))
      → Allows n m x (timer_ends ec t) answers (record x { waiting = still_waiting t x.waiting })
  fails_to_wait :
      (ec : ErrorCode) (t : TimePoint) → failed ec ≡ true → Allows n m x (timer_ends ec t) [] x
  shuts : Allows n m x closes [] (record x { is_closed = true })
  turns_away :
      (r : ExpiringRequest H) (rs : List (ExpiringRequest H))
      → x.is_closed ≡ true
      → x.waiting ≡ r ∷ rs
      → Allows n m x turns_next
          (to_client r (make_error_code disabled) ∷ [])
          (record x { waiting = rs })
  stays : Allows n m x goes_unnoticed [] x

module _ {ℓ} {H T : Type ℓ} where
  -- What clients can tell of a pool.
  abbrev pub seen : PoolImpl H T → Promise H
  seen p = record {
    in_use = of_list p.storage.used;
    waiting = view p.callbacks;
    is_closed = p.is_disabled;
  }

abbrev pub unused {ℓ} : {H : Type ℓ} → Promise H
unused = record { in_use = of_list []; waiting = []; is_closed = false }

-- Any number of steps, each with what it was asked for and what it told.
pub data Trace {ℓ} {X A B : Type ℓ} (Step : X → A → B → X → Type ℓ)
    : X → List (A × B) → X → Type ℓ where
  rests : (x : X) → Trace Step x [] x
  takes :
      {a : A} {b : B} {x y z : X} {more : List (A × B)}
      → Step x a b y
      → Trace Step y more z
      → Trace Step x ((a, b) ∷ more) z
