-- ===== src/Sync/PoolImpl/Opened.antt =====
-- sync/detail/pool_impl.hpp: the pools that the two constructors make.
use resource_pool.Prelude.{ℕ, ◌≡◌, refl, subst, ◌∙◌, [], arith}
use resource_pool.Outcome.{ok, >>=-eq-ok, ok-injective}
use resource_pool.TimeTraits.{TimePoint, Duration}
use resource_pool.Storage.{Storage}
use resource_pool.Storage.WellFormed.{WellFormed}
use resource_pool.Storage.Construction.{with_capacity-WellFormed, with_generator-WellFormed}
use resource_pool.Storage.Construction.Contents.{
  nodes-with_capacity, used-with_capacity, full-with_generator,
}
use resource_pool.Sync.PoolImpl.{PoolImpl, over, assert_capacity, with_capacity, with_generator}

-- A pool that a constructor has just made.
pub data Opened {ℓ} {T : Type ℓ} : PoolImpl T → Type ℓ where
  with_empty_cells :
      (capacity : ℕ) (idle_timeout lifespan : Duration) (p : PoolImpl T)
      → with_capacity capacity idle_timeout lifespan ≡ ok p
      → Opened p
  with_generated :
      (now : TimePoint) (generator : ℕ → T) (capacity : ℕ) (idle_timeout lifespan : Duration)
      (p : PoolImpl T)
      → with_generator now generator capacity idle_timeout lifespan ≡ ok p
      → Opened p

-- It has as many cells as its capacity, none in use, and nobody waits.
pub record Initial {ℓ} {T : Type ℓ} (p : PoolImpl T) : Type ℓ where
  pub well_formed : WellFormed p.storage
  pub full : p.storage.nodes ≡ p.capacity
  pub none_used : p.storage.used ≡ []
  pub nobody : p.has_capacity.waiting ≡ 0

same_capacity : (n m : ℕ) → assert_capacity n ≡ ok m → m ≡ n
unfolding assert_capacity
same_capacity n m e = ground arith

module _ {ℓ} {T : Type ℓ} where
  over-Initial :
      (s : Storage T) (capacity : ℕ)
      → WellFormed s
      → s.nodes ≡ capacity
      → s.used ≡ []
      → Initial (over s capacity)
  over-Initial s capacity w full none_used = record {
    well_formed = w;
    full = full;
    none_used = none_used;
    nobody = refl;
  }

  pub Opened-Initial : {p : PoolImpl T} → Opened p → Initial p
  unfolding with_capacity with_generator
  Opened-Initial (with_empty_cells capacity i l p e) =
      let (n, en, made) = >>=-eq-ok (assert_capacity capacity) _ e in
      subst Initial (ok-injective made) (
        over-Initial _ capacity (with_capacity-WellFormed n i l)
          (nodes-with_capacity T n i l ∙ same_capacity capacity n en) (used-with_capacity T n i l))
  Opened-Initial (with_generated now generator capacity i l p e) =
      let (n, en, made) = >>=-eq-ok (assert_capacity capacity) _ e in
      subst Initial (ok-injective made) (
        over-Initial _ capacity (with_generator-WellFormed now generator n i l)
          ((full-with_generator now generator n i l).1 ∙ same_capacity capacity n en)
          (full-with_generator now generator n i l).0)
