-- ===== src/Async/PoolImpl/Cases.antt =====
-- async/detail/pool_impl.hpp: the ways that the two steps of `get` can go.
use resource_pool.Prelude.{
  ℕ, ◌≡◌, sym, subst, true, false, inl, inr, Bool, Bool-cases, some, none, List, [], ◌∷◌, arith,
}
use resource_pool.Error.{
  success, make_error_code, disabled, get_resource_timeout, request_queue_overflow,
}
use resource_pool.TimeTraits.{TimePoint, Duration}
use resource_pool.Storage
use resource_pool.Storage.{Storage, at, singular}
use resource_pool.Storage.WellFormed.{WellFormed}
use resource_pool.Storage.Grant.{Granted, Refused, lease_cases}
use resource_pool.Async.Handlers.{Event, post, dispatch, on_list_iterator_handler, on_error_handler}
use resource_pool.Async.Queue
use resource_pool.Async.PoolImpl.{PoolImpl, get_locked, get_unlocked, is_zero}

module _ {ℓ} {H T : Type ℓ} (p : PoolImpl H T) (now : TimePoint) (io : ℕ) (h : H) where
  -- Under the mutex: the pool is disabled; or a cell is granted; or none is free.
  pub data Locked : Bool × PoolImpl H T × List (Event H) → Type ℓ where
    off :
        p.is_disabled ≡ true
        → Locked (
          true,
          p,
          dispatch io (on_list_iterator_handler (make_error_code disabled) singular h) ∷ [],
        )
    granted :
        (c : ℕ) (s : Storage T)
        → p.is_disabled ≡ false
        → Granted now p.storage s c
        → WellFormed s
        → Locked (
          true,
          record p { storage = s },
          post io (on_list_iterator_handler success (at c) h) ∷ [],
        )
    refused : p.is_disabled ≡ false → Refused p.storage p.storage → Locked (false, p, [])

  pub get_locked-Locked : WellFormed p.storage → Locked (get_locked now io h p)
  get_locked-Locked w = elim (Bool-cases p.is_disabled) [
    | inl dis ↦ subst Locked (sym (when_off dis)) (off dis)
    | inr en ↦ elim (lease_cases now p.storage w) [
      | inl (e, r) ↦ subst Locked (sym (when_none en e)) (refused en r)
      | inr (c, s, e, g, w') ↦ subst Locked (sym (when_some en c s e)) (granted c s en g w')
    ]
  ]
    where
      when_off :
          p.is_disabled ≡ true
          → get_locked now io h p ≡ (
            true,
            p,
            dispatch io (on_list_iterator_handler (make_error_code disabled) singular h) ∷ [],
          )
      when_off dis = unfold get_locked in ground arith

      when_none :
          p.is_disabled ≡ false
          → Storage.lease now p.storage ≡ (none, p.storage)
          → get_locked now io h p ≡ (false, p, [])
      when_none en e = unfold get_locked in ground arith

      when_some :
          p.is_disabled ≡ false
          → (c : ℕ) (s : Storage T) → Storage.lease now p.storage ≡ (some (at c), s)
          → get_locked now io h p ≡ (
            true,
            record p { storage = s },
            post io (on_list_iterator_handler success (at c) h) ∷ [],
          )
      when_some en c s e = unfold get_locked in ground arith

  module _ (wait_duration : Duration) where
    -- Behind it: the client does not wait; or its request is queued; or the queue is full.
    pub data Unlocked : PoolImpl H T × List (Event H) → Type ℓ where
      expired :
          is_zero wait_duration ≡ true
          → Unlocked (
            p,
            post io (on_list_iterator_handler (make_error_code get_resource_timeout) singular h)
                ∷ [],
          )
      queued :
          is_zero wait_duration ≡ false
          → (Queue.push io wait_duration h now p.callbacks).0 ≡ true
          → Unlocked (
            record p { callbacks = (Queue.push io wait_duration h now p.callbacks).1 },
            (Queue.push io wait_duration h now p.callbacks).2,
          )
      overflow :
          is_zero wait_duration ≡ false
          → (Queue.push io wait_duration h now p.callbacks).0 ≡ false
          → Unlocked (p, post io (on_error_handler (make_error_code request_queue_overflow) h) ∷ [])

    pub get_unlocked-Unlocked : Unlocked (get_unlocked now io h wait_duration p)
    unfolding get_unlocked
    get_unlocked-Unlocked = elim (Bool-cases (is_zero wait_duration)) [
      | inl zero_wait ↦ rw zero_wait (expired zero_wait)
      | inr waits ↦ rw waits (elim (Bool-cases (Queue.push io wait_duration h now p.callbacks).0) [
        | inl room ↦ rw room (queued waits room)
        | inr full ↦ rw full (overflow waits full)
      ])
    ]
