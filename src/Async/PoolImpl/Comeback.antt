-- ===== src/Async/PoolImpl/Comeback.antt =====
-- async/detail/pool_impl.hpp: the ways that a `recycle` or `waste` that is defined can have gone, whatever
-- its iterator.
use resource_pool.Prelude.{
  ◌≡◌, sym, subst, ◌⊎◌, inl, inr, if◌then◌else◌, Bool, true, false, Option-cases, none, some, List,
  [], ◌∷◌, ◌++◌,
}
use resource_pool.Outcome.{ok, >>=-eq-ok, ok-injective}
use resource_pool.TimeTraits.{TimePoint}
use resource_pool.Storage
use resource_pool.Storage.{Storage, CellIterator}
use resource_pool.Async.Handlers.{Event}
use resource_pool.Async.Queue
use resource_pool.Async.Queue.{QueuedValue}
use resource_pool.Async.PoolImpl.{PoolImpl, serve, reset_cell, recycle, waste}

module _ {ℓ} {H T : Type ℓ} (p : PoolImpl H T) (it : CellIterator) where
  -- The storage takes the cell back; or the first request gets it, as it is or without its value.
  pub data Comeback (taken : Storage T → Type ℓ) : PoolImpl H T × List (Event H) → Type ℓ where
    stored :
        (s : Storage T)
        → (Queue.pop p.callbacks).0 ≡ none
        → taken s
        → Comeback taken (
          record p { storage = s; callbacks = (Queue.pop p.callbacks).1 },
          (Queue.pop p.callbacks).2,
        )
    served :
        (value : QueuedValue H) (s : Storage T)
        → (Queue.pop p.callbacks).0 ≡ some value
        → (s ≡ p.storage) ⊎ (reset_cell it p.storage ≡ ok s)
        → Comeback taken (
          record p { storage = s; callbacks = (Queue.pop p.callbacks).1 },
          (Queue.pop p.callbacks).2 ++ serve value it ∷ [],
        )

  kept_or_reset :
      (valid : Bool) (s : Storage T)
      → (if valid then ok p.storage else reset_cell it p.storage) ≡ ok s
      → (s ≡ p.storage) ⊎ (reset_cell it p.storage ≡ ok s)
  kept_or_reset true s e = inl (sym (ok-injective e))
  kept_or_reset false s e = inr e

  module _ (p' : PoolImpl H T) (es : List (Event H)) where
    pub recycle-Comeback :
        (now : TimePoint)
        → recycle now it p ≡ ok (p', es)
        → Comeback (λ s. Storage.recycle now it p.storage ≡ ok s) (p', es)
    unfolding recycle
    recycle-Comeback now e = elim (Option-cases (Queue.pop p.callbacks).0) [
      | inl nobody ↦
          let (s, taken, r) =
            >>=-eq-ok (Storage.recycle now it p.storage) _ (rw (recycle, nobody) at e) in
          subst (Comeback _) (ok-injective r) (stored s nobody taken)
      | inr (value, first) ↦
          let (valid, _, r) =
            >>=-eq-ok (Storage.is_valid now it p.storage) _ (rw (recycle, first) at e) in
          let (s, kept, r') =
            >>=-eq-ok (if valid then ok p.storage else reset_cell it p.storage) _ r in
          subst (Comeback _) (ok-injective r') (served value s first (kept_or_reset valid s kept))
    ]

    pub waste-Comeback :
        waste it p ≡ ok (p', es) → Comeback (λ s. Storage.waste it p.storage ≡ ok s) (p', es)
    unfolding waste
    waste-Comeback e = elim (Option-cases (Queue.pop p.callbacks).0) [
      | inl nobody ↦
          let (s, taken, r) = >>=-eq-ok (Storage.waste it p.storage) _ (rw (waste, nobody) at e) in
          subst (Comeback _) (ok-injective r) (stored s nobody taken)
      | inr (value, first) ↦
          let (s, reset, r) = >>=-eq-ok (reset_cell it p.storage) _ (rw (waste, first) at e) in
          subst (Comeback _) (ok-injective r) (served value s first (inr reset))
    ]
