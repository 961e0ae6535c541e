-- ===== src/Tests/Loops.antt =====
-- pool.cc before its loop runs anything, and strand.cc when the first of three clients was called.
use resource_pool.Prelude.{ℕ, ◌≡◌, refl, subst, List, [], ◌∷◌, ◌++◌}
use resource_pool.Prelude.Int.{pos}
use resource_pool.TimeTraits.{time_min}
use resource_pool.Outcome.{Outcome, ok}
use resource_pool.Error.{success}
use resource_pool.Storage
use resource_pool.Storage.{at}
use resource_pool.Handle.{waste_strategy}
use resource_pool.Async.Handlers.{Completion, on_list_iterator_handler, run}
use resource_pool.Async.Queue
use resource_pool.Async.Queue.Posts.{completions}
use resource_pool.Async.PoolImpl
use resource_pool.Async.PoolImpl.{PoolImpl}
use resource_pool.Async.Pool
use resource_pool.Async.Pool.{OnGetHandler}
use resource_pool.Async.Pool.Handles.{asked}
use resource_pool.Async.Pool.Returns.{Logged, async_returns}
use resource_pool.Examples.{on_get, strand_on_get}
use resource_pool.Examples.AsyncStart.{start_one, start_three, start_three_lem}
use resource_pool.Examples.AsyncLoop.{Loops, posts, runs, call_client, Posted}
use resource_pool.Examples.AsyncRun.{Settles}
use resource_pool.Examples.AsyncMains.{programs_settle}
use resource_pool.Tests.Examples.{counters, at_epoch}

abbrev blank : OnGetHandler ℕ
blank = asked 0 waste_strategy 0

abbrev one_start : Outcome (Logged (OnGetHandler ℕ) ℕ)
one_start = start_one blank 1 (pos 2) 7

abbrev three_start : Outcome (Logged (OnGetHandler ℕ) ℕ)
three_start = start_three blank 1 (pos 2) 7 8 9

one_started : (r : Logged (OnGetHandler ℕ) ℕ) × (one_start ≡ ok r)
unfolding start_one Pool.make Pool.get_auto_waste Pool.get Pool.the_impl Pool.make_on_get_handler
    PoolImpl.with_capacity PoolImpl.assert_capacity PoolImpl.get PoolImpl.get_locked Storage.lease
    Storage.with_capacity Queue.make
one_started = (_, refl)

before_loop :
    Loops (on_get async_returns counters) one_start one_started.0.0 (completions one_started.0.1) []
before_loop = posts one_started.0 one_started.1

abbrev first_call : Completion (OnGetHandler ℕ)
first_call = on_list_iterator_handler success (at 0) (asked 0 waste_strategy 7)

abbrev second_call : Posted ℕ
second_call = (1, on_list_iterator_handler success (at 1) (asked 0 waste_strategy 8)) ∷ []

three_started :
    (p : PoolImpl (OnGetHandler ℕ) ℕ) × Loops
      (strand_on_get async_returns counters)
      three_start
      p
      ((1, first_call) ∷ second_call)
      []
three_started =
    let (p, es, e, posted, _) = start_three_lem blank 1 (pos 2) 7 8 9 in
    (
      p,
      subst (λ cs. Loops (strand_on_get async_returns counters) three_start p cs []) posted
          (posts (p, es) e),
    )

-- The first client is called, and opens a good stream.
called_once :
    (r : Logged (OnGetHandler ℕ) ℕ) × (call_client
        (strand_on_get async_returns counters)
        (pos 3)
        (pos 4)
        5
        (pos 0)
        first_call
        three_started.0
      ≡ ok r)
unfolding Settles
called_once =
    let (_, _, _, settled) =
      programs_settle counters blank 1 (pos 2) 7 8 9 one_started.0.0 three_started.0 _ _ [] []
        before_loop three_started.1 in
    settled.1 [] second_call 1 first_call refl (pos 3) (pos 4) 5 (pos 0) time_min at_epoch

abbrev still_posted : Posted ℕ
still_posted = ([] ++ second_call) ++ completions called_once.0.1

abbrev who_was_called : List ℕ
who_was_called = [] ++ (Pool.on_get (run first_call)).handler ∷ []

in_loop :
    Loops
      (strand_on_get async_returns counters)
      three_start
      called_once.0.0
      still_posted
      who_was_called
in_loop =
    runs (pos 3) (pos 4) 5 (pos 0) time_min at_epoch [] second_call 1 first_call three_started.1
      called_once.1

programs_settle_example :
    ((r : Logged (OnGetHandler ℕ) ℕ) × (one_start ≡ ok r))
    × ((r : Logged (OnGetHandler ℕ) ℕ) × (three_start ≡ ok r))
    × Settles
        (on_get async_returns counters)
        (7 ∷ [])
        one_started.0.0
        (completions one_started.0.1)
        []
    × Settles
        (strand_on_get async_returns counters)
        (7 ∷ 8 ∷ 9 ∷ [])
        called_once.0.0
        still_posted
        who_was_called
programs_settle_example =
    programs_settle counters blank 1 (pos 2) 7 8 9 one_started.0.0 called_once.0.0
      (completions one_started.0.1) still_posted [] who_was_called before_loop in_loop
