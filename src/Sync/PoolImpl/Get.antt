-- ===== src/Sync/PoolImpl/Get.antt =====
-- sync/detail/pool_impl.hpp: what `get` returns, and that it keeps the storage well-formed.
use resource_pool.Prelude.{
  ℕ, ◌<◌, ◌≡◌, ◌⊎◌, inl, inr, refl, sym, ap, subst, true, false, Bool-cases, Option, none, some,
  List, [], ◌∷◌, count, count-append, arith,
}
use resource_pool.Error.{make_error_code, success, get_resource_timeout, disabled}
use resource_pool.TimeTraits.{TimePoint}
use resource_pool.Storage
use resource_pool.Storage.{Storage, CellIterator, singular, at, StorageStats}
use resource_pool.Storage.WellFormed.{WellFormed}
use resource_pool.Storage.Grant.{Granted, Refused, lease_cases}
use resource_pool.Sync.PoolImpl.{
  PoolImpl, GetResult, Wakeup, CvStatus, no_timeout, timeout, attempt, block, or_wait, get,
}

module _ {ℓ} {T : Type ℓ} where
  -- A result of `get` and the pool that it leaves: a cell that is lent out with the code of success,
  -- or a singular iterator with the code for a disabled pool or for a wait that ran out.
  pub data GetOutcome (p : PoolImpl T) : GetResult → Type ℓ where
    lent : (c : ℕ) → 0 < count c p.storage.used → GetOutcome p (success, at c)
    refused_disabled : p.is_disabled ≡ true → GetOutcome p (make_error_code disabled, singular)
    refused_timeout : GetOutcome p (make_error_code get_resource_timeout, singular)

  -- One round: the pool is disabled; or a cell is granted; or there is none and nothing changes.
  pub data Attempted (now : TimePoint) (p : PoolImpl T)
      : Option GetResult × PoolImpl T → Type ℓ where
    off : p.is_disabled ≡ true → Attempted now p (some (make_error_code disabled, singular), p)
    grants :
        (c : ℕ) (s : Storage T)
        → p.is_disabled ≡ false
        → Granted now p.storage s c
        → WellFormed s
        → Attempted now p (some (success, at c), record p { storage = s })
    must_wait : p.is_disabled ≡ false → Refused p.storage p.storage → Attempted now p (none, p)

  pub attempt_cases :
      (now : TimePoint) (p : PoolImpl T) → WellFormed p.storage → Attempted now p (attempt now p)
  attempt_cases now p w = elim (Bool-cases p.is_disabled) [
    | inl dis ↦ subst (Attempted now p) (sym (when_off dis)) (off dis)
    | inr en ↦ elim (lease_cases now p.storage w) [
      | inl (e, r) ↦ subst (Attempted now p) (sym (when_none en e)) (must_wait en r)
      | inr (c, s, e, g, w') ↦
          subst (Attempted now p) (sym (when_some en c s e)) (grants c s en g w')
    ]
  ]
    where
      when_off :
          p.is_disabled ≡ true → attempt now p ≡ (some (make_error_code disabled, singular), p)
      when_off e = unfold attempt in ground arith

      when_none :
          p.is_disabled ≡ false
          → Storage.lease now p.storage ≡ (none, p.storage)
          → attempt now p ≡ (none, p)
      when_none en e = unfold attempt in ground arith

      when_some :
          p.is_disabled ≡ false
          → (c : ℕ) (s : Storage T) → Storage.lease now p.storage ≡ (some (at c), s)
          → attempt now p ≡ (some (success, at c), record p { storage = s })
      when_some en c s e = unfold attempt in ground arith

  -- Whatever happens while the thread waits keeps the storage well-formed.
  abbrev pub Keeps : List (Wakeup T) → Type ℓ
  Keeps [] = Unit
  Keeps (wake ∷ wakes) =
      ((q : PoolImpl T) → WellFormed q.storage → WellFormed (wake.meanwhile q).storage)
      × Keeps wakes

  record Sound (r : Option GetResult × PoolImpl T) : Type ℓ where
    kept : WellFormed r.1.storage
    result : (g : GetResult) → r.0 ≡ some g → GetOutcome r.1 g

  same : (p : PoolImpl T) (a g : GetResult) → some a ≡ some g → GetOutcome p a → GetOutcome p g
  same p a g e h = let q : a ≡ g = cc in subst (GetOutcome p) q h

  or_wait-Sound :
      (now : TimePoint) (p : PoolImpl T) (r : Option GetResult × PoolImpl T)
      (wait : PoolImpl T → Option GetResult × PoolImpl T)
      → WellFormed p.storage
      → Attempted now p r
      → Sound (wait p)
      → Sound (or_wait r wait)
  or_wait-Sound now p r wait w (off dis) h = record {
    kept = w;
    result = λ g e. same p _ g e (refused_disabled dis);
  }
  or_wait-Sound now p r wait w (grants c s en g w') h = record {
    kept = w';
    result = λ r e.
        same (record p { storage = s }) _ r e
          (lent c (ground (arith, ap (count c) g.used, count-append c p.storage.used (c ∷ []))));
  }
  or_wait-Sound now p r wait w (must_wait en refused) h = h

  get-Sound :
      (now : TimePoint) (wakes : List (Wakeup T)) (p : PoolImpl T)
      → WellFormed p.storage
      → Keeps wakes
      → Sound (get now wakes p)
  unfolding get
  get-Sound now [] p w k =
      or_wait-Sound now p _ _ w (attempt_cases now p w) (record { kept = w; result = λ g e. cc })
  get-Sound now (wake ∷ wakes) p w k =
      or_wait-Sound now p _ _ w (attempt_cases now p w)
        (by_status (get-Sound wake.now wakes woken still k.1) wake.status)
    where
      woken : PoolImpl T
      woken = wake.meanwhile (block p)

      still : WellFormed woken.storage
      still = k.0 (block p) (unfold block in w)

      by_status :
          Sound (get wake.now wakes woken)
          → (status : CvStatus)
          → Sound (elim status [
            | timeout ↦ (some (make_error_code get_resource_timeout, singular), woken)
            | no_timeout ↦ get wake.now wakes woken
          ])
      by_status rest timeout = record {
        kept = still;
        result = λ g e. same woken _ g e refused_timeout;
      }
      by_status rest no_timeout = rest

  -- When `get` returns, it returns the code of success with a cell that is lent out, or the code of a
  -- disabled pool, which the pool then is, or the code of a timeout; with both of these the iterator
  -- is singular. The storage stays well-formed, as long as the other threads keep it so.
  pub get-GetOutcome :
      (now : TimePoint) (wakes : List (Wakeup T)) (p : PoolImpl T)
      → WellFormed p.storage
      → Keeps wakes
      → WellFormed (get now wakes p).1.storage
        × ((g : GetResult) → (get now wakes p).0 ≡ some g → GetOutcome (get now wakes p).1 g)
  get-GetOutcome now wakes p w k = let h = get-Sound now wakes p w k in (h.kept, h.result)

  -- Some wait runs out.
  abbrev pub RunsOut : List (Wakeup T) → Type 0
  RunsOut [] = ⊥
  RunsOut (wake ∷ wakes) = (wake.status ≡ timeout) ⊎ RunsOut wakes

  or_wait-returns :
      (r : Option GetResult × PoolImpl T) (wait : PoolImpl T → Option GetResult × PoolImpl T)
      → ((q : PoolImpl T) → (g : GetResult) × ((wait q).0 ≡ some g))
      → (g : GetResult) × ((or_wait r wait).0 ≡ some g)
  or_wait-returns (some g, q) wait h = (g, refl)
  or_wait-returns (none, q) wait h = h q

  -- `get` returns, with a result or an error, once a wait runs out, if not before.
  pub get_returns :
      (now : TimePoint) (wakes : List (Wakeup T)) (p : PoolImpl T)
      → RunsOut wakes
      → (g : GetResult) × ((get now wakes p).0 ≡ some g)
  unfolding get
  get_returns now [] p h = absurd h
  get_returns now (wake ∷ wakes) p h = or_wait-returns (attempt now p) _ λ q.
      by_status (wake.meanwhile (block q)) wake.status
        (get wake.now wakes (wake.meanwhile (block q)))
        (later _ (get_returns wake.now wakes (wake.meanwhile (block q))) h)
    where
      Result : Option GetResult → Type 0
      Result o = (g : GetResult) × (o ≡ some g)

      later :
          (q : PoolImpl T)
          → (RunsOut wakes → Result (get wake.now wakes q).0)
          → (wake.status ≡ timeout) ⊎ RunsOut wakes
          → (wake.status ≡ timeout) ⊎ Result (get wake.now wakes q).0
      later q f (inl e) = inl e
      later q f (inr e) = inr (f e)

      by_status :
          (woken : PoolImpl T) (status : CvStatus) (rest : Option GetResult × PoolImpl T)
          → (status ≡ timeout) ⊎ Result rest.0
          → Result (
              (elim status as (λ _. Option GetResult × PoolImpl T) [
                | timeout ↦ (some (make_error_code get_resource_timeout, singular), woken)
                | no_timeout ↦ rest
              ]).0)
      by_status woken timeout rest h = (_, refl)
      by_status woken no_timeout rest (inl e) = cc
      by_status woken no_timeout rest (inr h) = h
