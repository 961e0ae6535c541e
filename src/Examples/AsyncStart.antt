-- ===== src/Examples/AsyncStart.antt =====
-- examples/async: the calls with which the three programs start, before the loop runs what they post.
use resource_pool.Prelude.{ℕ, ◌≡◌, refl, List, [], ◌∷◌, ◌++◌}
use resource_pool.Outcome.{Outcome, ok, ◌>>=◌}
use resource_pool.Error.{success}
use resource_pool.TimeTraits.{TimePoint, time_max, add}
use resource_pool.Storage
use resource_pool.Storage.{at}
use resource_pool.Handle.{waste_strategy}
use resource_pool.Async.Handlers.{Event, on_list_iterator_handler}
use resource_pool.Async.Queue
use resource_pool.Async.Queue.Posts.{completions}
use resource_pool.Async.Queue.Refinement.{view}
use resource_pool.Async.PoolImpl
use resource_pool.Async.PoolImpl.{PoolImpl}
use resource_pool.Async.Pool
use resource_pool.Async.Pool.{OnGetHandler}
use resource_pool.Async.Pool.Handles.{asked}

abbrev pub Started {ℓ} : Type ℓ → Type ℓ → Type ℓ
Started C T = Outcome (PoolImpl (OnGetHandler C) T × List (Event (OnGetHandler C)))

module _ {ℓ} {C T : Type ℓ} (blank : OnGetHandler C) (service : ℕ) where
  -- pool.cc and coro.cc: one client, and a pool of one cell.
  unfoldable pub start_one : TimePoint → C → Started C T
  start_one now client = do
    (pool, p) ← Pool.make blank 1 10 time_max time_max
    Pool.get_auto_waste pool now now service client time_max p

  -- strand.cc: three clients, and a pool of two cells.
  unfoldable pub start_three : TimePoint → C → C → C → Started C T
  start_three now first second third = do
    (pool, p) ← Pool.make blank 2 10 time_max time_max
    (p, es) ← Pool.get_auto_waste pool now now service first time_max p
    (p, fs) ← Pool.get_auto_waste pool now now service second time_max p
    (p, gs) ← Pool.get_auto_waste pool now now service third time_max p
    ok (p, es ++ fs ++ gs)

  -- Whatever the clock reads, the first two clients get a cell each, and the third waits.
  pub start_three_lem :
      (now : TimePoint) (first second third : C)
      → (p : PoolImpl (OnGetHandler C) T) × (es : List (Event (OnGetHandler C))) × (start_three now
            first second third
          ≡ ok (p, es))
        × (completions es
            ≡ (service, on_list_iterator_handler success (at 0) (asked 0 waste_strategy first))
              ∷ (service, on_list_iterator_handler success (at 1) (asked 0 waste_strategy second))
              ∷ [])
        × (view p.callbacks
            ≡ record {
              io_context = service;
              request = asked 0 waste_strategy third;
              expires_at = add now time_max;
            }
              ∷ [])
  unfolding start_three Pool.make Pool.get_auto_waste Pool.get Pool.the_impl
      Pool.make_on_get_handler PoolImpl.with_capacity PoolImpl.assert_capacity PoolImpl.get
      PoolImpl.get_locked PoolImpl.get_unlocked Storage.lease Storage.with_capacity Queue.push
      Queue.make
  start_three_lem now first second third = (_, _, refl, refl, refl)
