-- ===== src/Examples/SyncRun.antt =====
-- examples/sync/pool.cc: the whole run of `main`, on the pool of one cell that it makes.
use resource_pool.Prelude.{
  ◌+◌, ◌≡◌, refl, ◌∙◌, ◌⊎◌, inl, inr, true, Option, none, some, [], length, arith,
}
use resource_pool.Prelude.Int.{ℤ, pos, negsuc, ◌-ℤ◌}
use resource_pool.Outcome.{Outcome, ok, throws, undefined, ◌>>=◌}
use resource_pool.Error.{ErrorCode, success, failed}
use resource_pool.TimeTraits.{TimePoint, epoch, time_max, time_min}
use resource_pool.Storage
use resource_pool.Storage.{Storage, CellIterator, at, put_available, put_wasted}
use resource_pool.Storage.WellFormed.{WellFormed}
use resource_pool.Storage.Access.{load, store, in_use}
use resource_pool.Storage.Construction.{with_capacity-WellFormed}
use resource_pool.Storage.Lease.{lease-WellFormed}
use resource_pool.Handle.{
  Handle, recycle_strategy, make_handle, empty, get, assert_not_empty, reset, destroy, run_strategy,
  recycle, waste,
}
use resource_pool.Sync.PoolImpl
use resource_pool.Sync.PoolImpl.{PoolImpl}
use resource_pool.Sync.Pool
use resource_pool.Sync.Pool.Handles.{sync_returns}
use resource_pool.Examples.{Streams, count_from_min, print}
use resource_pool.Examples.SyncMain.{session, main, session_lem, stream_of, Written}
use resource_pool.Examples.SoleCell.{Sole, sole_returns, Free, recycled_free}

module _ {ℓ} {T : Type ℓ} where
  -- The pool that `main` makes, and the pool when it has got the cell.
  abbrev fresh : PoolImpl T
  fresh = PoolImpl.over (Storage.with_capacity 1 time_max time_max) 1

  abbrev got : TimePoint → PoolImpl T
  got now = (PoolImpl.get now [] fresh).1

  got-Sole : (now : TimePoint) → Sole (at 0) (got now)
  unfolding PoolImpl.get PoolImpl.attempt Storage.lease Storage.with_capacity
  got-Sole now = record {
    lent = in_use 0 refl granted (omega arith);
    one_used = refl;
    one_cell = refl;
  }
    where
      granted : WellFormed (got now).storage
      granted =
          lease-WellFormed now (Storage.with_capacity 1 time_max time_max)
            (with_capacity-WellFormed 1 time_max time_max)

  got_empty : (now : TimePoint) → ((got now).storage.cells 0).value ≡ none
  unfolding PoolImpl.get PoolImpl.attempt Storage.lease Storage.with_capacity
  got_empty now = refl

  got_load : (now : TimePoint) → load (at 0) (got now).storage ≡ ok ((got now).storage.cells 0)
  unfolding PoolImpl.get PoolImpl.attempt Storage.lease Storage.with_capacity load Storage.deref
  got_load now = refl

  -- The pool is disabled, and its only cell is free.
  abbrev pub Left : PoolImpl T → Type 0
  Left q =
      (q.is_disabled ≡ true)
      × (PoolImpl.used q ≡ 0)
      × (length q.storage.available + length q.storage.wasted ≡ 1)

  module _ (streams : Streams T) (now later : TimePoint) (reading : TimePoint) (stamp : ℤ)
      (early : count_from_min reading ≡ ok stamp) where
    -- What `main` returns.
    abbrev exit_code : Option T → ℤ
    exit_code opened = elim opened [ none ↦ negsuc 0 | some file ↦ pos 0 ]

    abbrev ran : Option T → Outcome (ℤ × PoolImpl T)
    ran opened =
        session sync_returns streams now later opened reading success
          (make_handle 0 recycle_strategy (at 0)) (got now)

    given_back :
        (o : Outcome (ℤ × PoolImpl T)) (code : ℤ) (p : PoolImpl T)
        → Sole (at 0) p
        → o ≡ (do q ← PoolImpl.recycle later (at 0) p; ok (code, q))
        → (q : PoolImpl T) × (o ≡ ok (code, q)) × Free q
    given_back o code p h e =
        let (q, back, free) = recycled_free later (at 0) p h in (q, e ∙ rw back refl, free)

    Answer : Option T → Type ℓ
    Answer opened =
        let o =
          session sole_returns streams now later opened reading success
            (make_handle 0 recycle_strategy (at 0)) (got now) in
        let x = (got now).storage.cells 0 in
        ((stream_of x opened ≡ none)
          × (o ≡ (do q ← PoolImpl.recycle later (at 0) (got now); ok (negsuc 0, q))))
        ⊎ ((file : T) × (stream_of x opened ≡ some file)
            × Written sole_returns streams 0 recycle_strategy (at 0) later reading stamp early file
                o)

    Ran : Option T → Type ℓ
    Ran opened = (q : PoolImpl T) × (ran opened ≡ ok (exit_code opened, q)) × Free q

    -- What the calls do does not depend on what is promised of them.
    same_session :
        (opened : Option T) (ec : ErrorCode) (h : Handle) (p : PoolImpl T)
        → session sync_returns streams now later opened reading ec h p
          ≡ session sole_returns streams now later opened reading ec h p
    unfolding session print empty get assert_not_empty reset destroy run_strategy recycle waste
    same_session opened ec h p = refl

    answered : (opened : Option T) → Answer opened → Ran opened
    unfolding Answer Ran Written
    answered none (inl (_, e)) = given_back _ _ _ (got-Sole now) (same_session none _ _ _ ∙ e)
    answered none (inr (file, has, _)) = let x = got_empty now in cc
    answered (some file) (inl (nothing, _)) = let x = got_empty now in cc
    answered (some file) (inr (_, _, (w, lent, _, e))) =
        given_back _ _ w lent (same_session (some file) _ _ _ ∙ e)

    ran_lem :
        (opened : Option T) → (q : PoolImpl T) × (ran opened ≡ ok (exit_code opened, q)) × Free q
    unfolding failed Answer Ran
    ran_lem opened = answered opened (
        session_lem sole_returns streams 0 recycle_strategy (at 0) later reading stamp early now
          opened success (got now) ((got now).storage.cells 0) refl (got-Sole now) (got_load now))

    main_session :
        (opened : Option T)
        → main streams now later opened reading
          ≡ (do (code, q) ← ran opened; ok (some (code, PoolImpl.disable q)))
    unfolding main Pool.make Pool.get_auto_recycle Pool.get_handle Pool.the_impl Pool.destroy
        PoolImpl.with_capacity PoolImpl.assert_capacity PoolImpl.get PoolImpl.attempt Storage.lease
        Storage.with_capacity
    main_session opened = refl

    main_early :
        (opened : Option T)
        → (q : PoolImpl T) × (main streams now later opened reading
            ≡ ok (some (exit_code opened, q)))
          × Left q
    unfolding PoolImpl.used PoolImpl.disable
    main_early opened =
        let (q, e, free) = ran_lem opened in
        (PoolImpl.disable q, main_session opened ∙ rw e refl, (refl, free.none_used, free.one_free))

  module _ (streams : Streams T) (now later : TimePoint) where
    -- The number that `main` prints, if it comes to that.
    abbrev printed : Option T → TimePoint → Outcome ℤ
    printed opened reading = elim opened [ none ↦ ok (pos 0) | some file ↦ count_from_min reading ]

    abbrev result : Option T → TimePoint → PoolImpl T → Outcome (Option (ℤ × PoolImpl T))
    result opened reading q = do
      _ ← printed opened reading
      ok (some (elim opened [ none ↦ negsuc 0 | some file ↦ pos 0 ], q))

    at_epoch : count_from_min epoch ≡ ok time_min
    unfolding count_from_min ◌-ℤ◌
    at_epoch = refl

    nothing_printed :
        (reading : TimePoint)
        → main streams now later none reading ≡ main streams now later none epoch
    unfolding main session Pool.make Pool.get_auto_recycle Pool.get_handle Pool.the_impl
        PoolImpl.with_capacity PoolImpl.assert_capacity PoolImpl.get PoolImpl.attempt Storage.lease
        Storage.with_capacity failed make_handle empty ◌-ℤ◌ load Storage.deref
    nothing_printed reading = refl

    overflows :
        (file : T) (reading : TimePoint)
        → count_from_min reading ≡ undefined
        → main streams now later (some file) reading ≡ undefined
    unfolding main session print get assert_not_empty reset Pool.make Pool.get_auto_recycle
        Pool.get_handle Pool.the_impl PoolImpl.with_capacity PoolImpl.assert_capacity PoolImpl.get
        PoolImpl.attempt Storage.lease Storage.with_capacity failed make_handle empty store
        Storage.deref load
    overflows file reading e = rw e refl

    -- `main` comes to an end unless what it prints overflows. It returns -1 if an exception is thrown where
    -- the stream is made. Else it prints, which is undefined behaviour if the smallest time less the clock's
    -- reading overflows, as it does whenever the clock is past its epoch; if not, it returns 0. The pool
    -- that is left is disabled and its only cell is free.
    pub main_lem :
        (opened : Option T) (reading : TimePoint)
        → (q : PoolImpl T) × (main streams now later opened reading ≡ result opened reading q)
          × Left q
    main_lem none reading =
        let (q, e, left) = main_early streams now later epoch time_min at_epoch none in
        (q, nothing_printed reading ∙ e, left)
    main_lem (some file) reading = by_count (count_from_min reading) refl
      where
        by_count :
            (o : Outcome ℤ)
            → count_from_min reading ≡ o
            → (q : PoolImpl T) × (main streams now later (some file) reading
                ≡ result (some file) reading q)
              × Left q
        by_count (ok stamp) e =
            let (q, f, left) = main_early streams now later reading stamp e (some file) in
            (q, f ∙ rw e refl, left)
        by_count (throws problem) e = absurd (unfold count_from_min in ground arith)
        by_count undefined e =
            let (q, _, left) = main_early streams now later epoch time_min at_epoch none in
            (q, overflows file reading e ∙ rw e refl, left)
