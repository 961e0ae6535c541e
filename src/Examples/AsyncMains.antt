-- ===== src/Examples/AsyncMains.antt =====
-- examples/async: pool.cc and strand.cc come to their end, in whatever order their loops run what is
-- posted.
use resource_pool.Prelude.{ℕ, ◌≡◌, refl, List, [], ◌∷◌, ◌++◌, arith}
use resource_pool.Outcome.{ok}
use resource_pool.TimeTraits.{TimePoint, time_max}
use resource_pool.Storage
use resource_pool.Handle.{waste_strategy}
use resource_pool.Async.Handlers.{run}
use resource_pool.Async.Queue
use resource_pool.Async.Queue.Posts.{completions}
use resource_pool.Async.PoolImpl
use resource_pool.Async.PoolImpl.{PoolImpl}
use resource_pool.Async.PoolImpl.Disable.{calls_of}
use resource_pool.Async.PoolImpl.Opened.{Opened, with_empty_cells}
use resource_pool.Async.PoolImpl.Serial.{Serial, gets, Serial-Busy}
use resource_pool.Async.Pool
use resource_pool.Async.Pool.{OnGetHandler}
use resource_pool.Async.Pool.Handles.{asked}
use resource_pool.Async.Pool.Returns.{Logged, async_returns}
use resource_pool.Examples.{Streams, on_get, strand_on_get}
use resource_pool.Examples.AsyncStart.{start_one, start_three}
use resource_pool.Examples.ClientEnds.{clients_come_back}
use resource_pool.Examples.AsyncLoop.{Posted, Loops, Running}
use resource_pool.Examples.AsyncRun.{GivesBack, Settles, Loops-Running, Running-Settles}

module _ {ℓ} {C T : Type ℓ} (blank : OnGetHandler C) (service : ℕ) (now : TimePoint) where
  abbrev ask : C → PoolImpl (OnGetHandler C) T → Logged (OnGetHandler C) T
  ask client p = PoolImpl.get now now service (asked 0 waste_strategy client) time_max p

  abbrev new_pool : ℕ → PoolImpl (OnGetHandler C) T
  new_pool n = PoolImpl.over (Storage.with_capacity n time_max time_max) n 10 blank

  one_Opened : Opened 1 (new_pool 1)
  unfolding PoolImpl.with_capacity PoolImpl.assert_capacity
  one_Opened = with_empty_cells blank 1 10 time_max time_max (new_pool 1) refl

  two_Opened : Opened 2 (new_pool 2)
  unfolding PoolImpl.with_capacity PoolImpl.assert_capacity
  two_Opened = with_empty_cells blank 2 10 time_max time_max (new_pool 2) refl

  -- pool.cc: the only client gets the only cell.
  one_Running :
      (client : C)
      → let r = ask client (new_pool 1) in
        (start_one blank service now client ≡ ok r)
        × Running 1 (client ∷ []) r.0 (completions r.1) []
  unfolding start_one Pool.make Pool.get_auto_waste Pool.get Pool.the_impl Pool.make_on_get_handler
      PoolImpl.with_capacity PoolImpl.assert_capacity PoolImpl.get PoolImpl.get_locked
      PoolImpl.get_unlocked Storage.lease Storage.with_capacity Queue.push Queue.make run calls_of
  one_Running client =
      let r = ask client (new_pool 1) in
      let busy = Serial-Busy (
        gets now now service (asked 0 waste_strategy client) time_max {es = r.1}
          (Serial.opens (new_pool 1) one_Opened) refl) in
      (
        refl,
        record {
          sound = busy.sound;
          consistent = busy.consistent;
          holds = record { own = λ d. refl; as_many = refl };
          bring = ((0, asked 0 waste_strategy client, refl), tt);
          busy = busy.busy;
          once = λ chosen. omega arith;
        },
      )

  -- strand.cc: the first two clients get a cell each, and the third waits.
  three_Running :
      (first second third : C)
      → let r = ask first (new_pool 2) in
        let s = ask second r.0 in
        let t = ask third s.0 in
        (start_three blank service now first second third ≡ ok (t.0, r.1 ++ s.1 ++ t.1))
        × Running 2 (first ∷ second ∷ third ∷ []) t.0 (completions (r.1 ++ s.1 ++ t.1)) []
  unfolding start_three Pool.make Pool.get_auto_waste Pool.get Pool.the_impl
      Pool.make_on_get_handler PoolImpl.with_capacity PoolImpl.assert_capacity PoolImpl.get
      PoolImpl.get_locked PoolImpl.get_unlocked Storage.lease Storage.with_capacity Queue.push
      Queue.make run calls_of
  three_Running first second third =
      let r = ask first (new_pool 2) in
      let s = ask second r.0 in
      let t = ask third s.0 in
      let busy = Serial-Busy (
        gets now now service (asked 0 waste_strategy third) time_max {es = t.1}
          (gets now now service (asked 0 waste_strategy second) time_max {es = s.1}
            (gets now now service (asked 0 waste_strategy first) time_max {es = r.1}
              (Serial.opens (new_pool 2) two_Opened) refl)
            refl)
          refl) in
      (
        refl,
        record {
          sound = busy.sound;
          consistent = busy.consistent;
          holds = record { own = λ d. refl; as_many = refl };
          bring = (
            (0, asked 0 waste_strategy first, refl),
            ((1, asked 0 waste_strategy second, refl), tt),
          );
          busy = busy.busy;
          once = λ chosen. omega arith;
        },
      )

module _ {ℓ} (C : Type ℓ) {T : Type ℓ} (streams : Streams T) where
  on_get-GivesBack : GivesBack {C = C} (on_get async_returns streams)
  unfolding GivesBack
  on_get-GivesBack n p a k c used i strategy now later opened reading stamp early =
      (clients_come_back n p a k c used streams i strategy now later opened reading stamp early).0

  strand_on_get-GivesBack : GivesBack {C = C} (strand_on_get async_returns streams)
  unfolding GivesBack
  strand_on_get-GivesBack n p a k c used i strategy now later opened reading stamp early =
      (clients_come_back n p a k c used streams i strategy now later opened reading stamp early).1

module _ {ℓ} {C T : Type ℓ} (streams : Streams T) where
  -- Whatever streams are opened, and in whatever order the loops run what is
  -- posted, as long as no wait to the end of time ends and the smallest time less what the clock reads when a
  -- client prints does not overflow: the calls of `get` of pool.cc and of strand.cc
  -- return; at any time every client was called, is to be called by what is posted, or waits, each as
  -- often as it asked; a call that is to be made is defined; and when none is to be made, all clients
  -- have been called, nobody waits, no cell is in use, and the destructor of the pool turns nobody away.
  pub programs_settle :
      (blank : OnGetHandler C) (service : ℕ) (now : TimePoint) (first second third : C)
      (p q : PoolImpl (OnGetHandler C) T) (posted posted' : Posted C) (called called' : List C)
      → Loops (on_get async_returns streams) (start_one blank service now first) p posted called
      → Loops
          (strand_on_get async_returns streams)
          (start_three blank service now first second third)
          q
          posted'
          called'
      → ((r : Logged (OnGetHandler C) T) × (start_one blank service now first ≡ ok r))
        × ((r : Logged (OnGetHandler C) T) × (start_three blank service now first second third
              ≡ ok r))
        × Settles (on_get async_returns streams) (first ∷ []) p posted called
        × Settles
            (strand_on_get async_returns streams)
            (first ∷ second ∷ third ∷ [])
            q
            posted'
            called'
  programs_settle blank service now first second third p q posted posted' called called' one three =
      let (e, a) = one_Running blank service now first in
      let (f, b) = three_Running blank service now first second third in
      let gives_one = on_get-GivesBack C streams in
      let gives_three = strand_on_get-GivesBack C streams in
      let clients = first ∷ second ∷ third ∷ [] in
      (
        (_, e),
        (_, f),
        Running-Settles _ gives_one 1 (omega arith) (first ∷ []) p posted called
            (Loops-Running _ gives_one 1 (omega arith) (first ∷ []) _ _ e a one),
        Running-Settles _ gives_three 2 (omega arith) clients q posted' called'
            (Loops-Running _ gives_three 2 (omega arith) clients _ _ f b three),
      )
