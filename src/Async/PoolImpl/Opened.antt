-- ===== src/Async/PoolImpl/Opened.antt =====
-- async/detail/pool_impl.hpp: the pools that the three constructors make.
use resource_pool.Prelude.{ℕ, ◌≡◌, refl, sym, ap, subst, ◌∙◌, List, [], length, false, arith}
use resource_pool.Outcome.{ok, >>=-eq-ok, ok-injective}
use resource_pool.TimeTraits.{TimePoint, Duration}
use resource_pool.Storage
use resource_pool.Storage.{Storage}
use resource_pool.Storage.WellFormed.{WellFormed}
use resource_pool.Storage.Construction.{with_capacity-WellFormed, with_generator-WellFormed}
use resource_pool.Storage.Construction.Contents.{
  nodes-with_capacity, used-with_capacity, full-with_generator,
}
use resource_pool.Async.Queue
use resource_pool.Async.Queue.Invariant.{Consistent, make-Consistent}
use resource_pool.Async.Queue.Refinement.{view}
use resource_pool.Async.PoolImpl.{
  PoolImpl, over, assert_capacity, with_capacity, with_generator, with_range,
}
use resource_pool.Async.PoolImpl.Cells.{Sound}

-- A pool of `n` cells that a constructor has just made.
pub data Opened {ℓ} {H T : Type ℓ} : ℕ → PoolImpl H T → Type ℓ where
  with_empty_cells :
      (blank : H) (n queue_capacity : ℕ) (idle_timeout lifespan : Duration) (p : PoolImpl H T)
      → with_capacity blank n queue_capacity idle_timeout lifespan ≡ ok p
      → Opened n p
  with_generated :
      (blank : H) (now : TimePoint) (generator : ℕ → T) (n queue_capacity : ℕ)
      (idle_timeout lifespan : Duration) (p : PoolImpl H T)
      → with_generator blank now generator n queue_capacity idle_timeout lifespan ≡ ok p
      → Opened n p
  with_elements :
      (blank : H) (now : TimePoint) (beyond : T) (values : List T) (queue_capacity : ℕ)
      (idle_timeout lifespan : Duration) (p : PoolImpl H T)
      → with_range blank now beyond values queue_capacity idle_timeout lifespan ≡ ok p
      → Opened (length values) p

-- No cell is in use, nobody waits, and the pool is not disabled.
pub record Initial {ℓ} {H T : Type ℓ} (n : ℕ) (p : PoolImpl H T) : Type ℓ where
  pub sound : Sound n p.storage
  pub consistent : Consistent p.callbacks
  pub none_used : p.storage.used ≡ []
  pub nobody : view p.callbacks ≡ []
  pub enabled : p.is_disabled ≡ false

same_capacity : (n m : ℕ) → assert_capacity n ≡ ok m → m ≡ n
unfolding assert_capacity
same_capacity n m e = ground arith

module _ {ℓ} {H T : Type ℓ} where
  over-Initial :
      (n m queue_capacity : ℕ) (blank : H) (s : Storage T)
      → WellFormed s
      → s.nodes ≡ n
      → s.used ≡ []
      → Initial n (over s m queue_capacity blank)
  unfolding Queue.make
  over-Initial n m queue_capacity blank s w full none_used = record {
    sound = record { well_formed = w; full = full };
    consistent = make-Consistent queue_capacity blank;
    none_used = none_used;
    nobody = refl;
    enabled = refl;
  }

  made_empty :
      (blank : H) (n queue_capacity : ℕ) (i l : Duration) (p : PoolImpl H T)
      → with_capacity blank n queue_capacity i l ≡ ok p
      → over (Storage.with_capacity n i l) n queue_capacity blank ≡ p
  unfolding with_capacity
  made_empty blank n queue_capacity i l p e =
      let (m, em, r) = >>=-eq-ok (assert_capacity n) _ e in
      ap (λ k. over (Storage.with_capacity k i l) n queue_capacity blank)
        (sym (same_capacity n m em))
      ∙ ok-injective r

  made_generated :
      (blank : H) (now : TimePoint) (generator : ℕ → T) (n queue_capacity : ℕ) (i l : Duration)
      (p : PoolImpl H T)
      → with_generator blank now generator n queue_capacity i l ≡ ok p
      → over (Storage.with_generator now generator n i l) n queue_capacity blank ≡ p
  unfolding with_generator
  made_generated blank now generator n queue_capacity i l p e =
      let (m, em, e') = >>=-eq-ok (assert_capacity n) _ e in
      let (k, ek, r) = >>=-eq-ok (assert_capacity n) _ e' in
      ap (λ j. over (Storage.with_generator now generator j i l) n queue_capacity blank)
        (sym (same_capacity n m em))
      ∙ ap (λ j. over (Storage.with_generator now generator m i l) j queue_capacity blank)
          (sym (same_capacity n k ek))
      ∙ ok-injective r

  generated-Initial :
      (blank : H) (now : TimePoint) (generator : ℕ → T) (n queue_capacity : ℕ) (i l : Duration)
      (p : PoolImpl H T)
      → with_generator blank now generator n queue_capacity i l ≡ ok p
      → Initial n p
  generated-Initial blank now generator n queue_capacity i l p e =
      let (none_used, full) = full-with_generator now generator n i l in
      subst (Initial n) (made_generated blank now generator n queue_capacity i l p e) (
        over-Initial n n queue_capacity blank _ (with_generator-WellFormed now generator n i l) full
          none_used)

  pub Opened-Initial : {n : ℕ} {p : PoolImpl H T} → Opened n p → Initial n p
  unfolding with_range
  Opened-Initial (with_empty_cells blank n queue_capacity i l p e) =
      subst (Initial n) (made_empty blank n queue_capacity i l p e) (
        over-Initial n n queue_capacity blank _ (with_capacity-WellFormed n i l)
          (nodes-with_capacity T n i l) (used-with_capacity T n i l))
  Opened-Initial (with_generated blank now generator n queue_capacity i l p e) =
      generated-Initial blank now generator n queue_capacity i l p e
  Opened-Initial (with_elements blank now beyond values queue_capacity i l p e) =
      generated-Initial blank now _ (length values) queue_capacity i l p e
