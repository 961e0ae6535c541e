-- ===== src/Tests/Storage.antt =====
-- storage.hpp on two cells, with an idle timeout of 5 and a lifespan of 100.
use resource_pool.Prelude.{
  ℕ, ◌+◌, ◌++◌, ◌<◌, ◌≡◌, ◌↔◌, refl, Bool, true, false, not, if◌then◌else◌, none, some, [], ◌∷◌,
  length, get_elem?, count, arith,
}
use resource_pool.Prelude.Int.{ℤ, pos, ◌<ℤ◌, ◌+ℤ◌, ◌-ℤ◌}
use resource_pool.Outcome.{ok}
use resource_pool.TimeTraits.{time_max, add}
use resource_pool.Storage.{
  Storage, at, stats, with_capacity, with_generator, with_range, lease, recycle, waste, is_valid,
  invalidate, put_available, put_wasted, life_end,
}
use resource_pool.Storage.WellFormed.{WellFormed}
use resource_pool.Storage.Construction.{with_range-WellFormed}
use resource_pool.Storage.Construction.Contents.{new_cell, constructors_lem}
use resource_pool.Storage.Grant.{Granted, lease-Granted, lease-none}
use resource_pool.Storage.Lease.{lease-lease_from, lease_from, fresh, dropped}
use resource_pool.Storage.Return.{recycle-is_valid}
use resource_pool.Storage.Invalidation.{invalidate_lem}
use resource_pool.Storage.Validity.{is_valid-lease, default_settings}

unfoldable pub two : Storage ℕ
two = with_range (pos 0) (10 ∷ 20 ∷ []) (pos 5) (pos 100)

pub two-WellFormed : WellFormed two
unfolding two
two-WellFormed = with_range-WellFormed (pos 0) (10 ∷ 20 ∷ []) (pos 5) (pos 100)

-- After `lease` at time 1.
unfoldable pub leased : Storage ℕ
unfolding two lease with_range add ◌+ℤ◌ ◌-ℤ◌
leased = (lease (pos 1) two).1

lease-two : lease (pos 1) two ≡ (some (at 0), leased)
unfolding leased
lease-two = refl

-- At time 9 both cells are past their drop time: they are emptied, and the first of them is given.
lease_late : (lease (pos 9) two).0 ≡ some (at 0)
unfolding leased
lease_late = refl

pub leased_facts : Granted (pos 1) two leased 0 × WellFormed leased
leased_facts = lease-Granted (pos 1) two leased 0 two-WellFormed lease-two

pub held : 0 < count 0 leased.used
unfolding leased
held = omega arith

lease-Granted_example : Granted (pos 1) two leased 0 × WellFormed leased
lease-Granted_example = lease-Granted (pos 1) two leased 0 two-WellFormed lease-two

lease-lease_from_example :
    let e =
      lease_from
        (fresh (pos 9) two.cells two.available)
        (two.wasted ++ dropped (pos 9) two.cells two.available) in
    let r = lease (pos 9) two in (r.0 ≡ e.0) × (r.1.available ≡ e.1) × (r.1.wasted ≡ e.2)
lease-lease_from_example = lease-lease_from (pos 9) two

lease-none_example :
    ((lease (pos 1) two ≡ (none, two)) ↔ (length two.used ≡ two.nodes))
    × ((lease (pos 1) two).0 ≡ none → lease (pos 1) two ≡ (none, two))
lease-none_example = lease-none (pos 1) two two-WellFormed

leased_value : (leased.cells 0).value ≡ some 10
unfolding leased
leased_value = refl

is_valid-lease_example :
    (is_valid (pos 1) (at 0) leased ≡ ok true)
    × (recycle (pos 1) (at 0) leased ≡ ok (put_available (pos 1) 0 leased))
is_valid-lease_example =
    is_valid-lease (pos 1) two leased 0 two-WellFormed lease-two (λ e. cc leased_value)

recycle-is_valid_example :
    (valid : Bool) × (is_valid (pos 1) (at 0) leased ≡ ok valid)
    × ((valid ≡ true)
        ↔ (((leased.cells 0).waste_on_recycle ≡ false) × (pos 1 <ℤ life_end leased 0)))
    × (recycle (pos 1) (at 0) leased
        ≡ (if valid then ok (put_available (pos 1) 0 leased) else waste (at 0) leased))
recycle-is_valid_example = recycle-is_valid leased 0 leased_facts.1 held (pos 1)

recycle_leased : recycle (pos 1) (at 0) leased ≡ ok (put_available (pos 1) 0 leased)
unfolding leased recycle
recycle_leased = refl

invalidate_lem_example :
    (stats (invalidate leased) ≡ record {
      available = 0;
      used = length leased.used;
      wasted = length leased.wasted + length leased.available;
    })
    × ((now : ℤ) (c : ℕ)
        → 0 < count c leased.used
        → (is_valid now (at c) (invalidate leased) ≡ ok false)
          × (recycle now (at c) (invalidate leased) ≡ ok (put_wasted c (invalidate leased))))
    × ((c : ℕ)
        → count c (invalidate leased).wasted ≡ count c leased.wasted + count c leased.available)
    × ((c : ℕ)
        → 0 < count c (invalidate leased).wasted
        → ((invalidate leased).cells c).value ≡ none)
invalidate_lem_example = invalidate_lem leased leased_facts.1

forever : Storage ℕ
unfolding lease with_range add ◌+ℤ◌ ◌-ℤ◌
forever = (lease (pos 1) (with_range (pos 0) (10 ∷ []) time_max time_max)).1

lease-forever :
    lease (pos 1) (with_range (pos 0) (10 ∷ []) time_max time_max) ≡ (some (at 0), forever)
unfolding forever
lease-forever = refl

forever-WellFormed : WellFormed forever
forever-WellFormed =
    (lease-Granted (pos 1) _ forever 0 (with_range-WellFormed (pos 0) (10 ∷ []) time_max time_max)
      lease-forever).1

default_settings_example :
    (is_valid (pos 9) (at 0) forever ≡ ok (not (forever.cells 0).waste_on_recycle))
    × (((put_available (pos 9) 0 forever).cells 0).drop_time ≡ time_max)
unfolding forever
default_settings_example =
    default_settings forever 0 forever-WellFormed (omega arith) (refl, refl) (pos 9) (omega arith)
      (omega arith) (omega arith)

constructors_lem_example :
    let empty = with_capacity {T = ℕ} 3 (pos 5) (pos 100) in
    let made = with_generator (pos 0) (λ i. i + 7) 3 (pos 5) (pos 100) in
    let ranged = with_range {T = ℕ} (pos 0) (10 ∷ 11 ∷ []) (pos 5) (pos 100) in
    (stats empty ≡ record { available = 0; used = 0; wasted = 3 })
    × (stats made ≡ record { available = 3; used = 0; wasted = 0 })
    × (made.available ≡ 0 ∷ 1 ∷ 2 ∷ [])
    × ((j : ℕ) → j < 3 → made.cells j ≡ new_cell (pos 0) (pos 5) (pos 100) (j + 7))
    × (stats ranged ≡ record { available = 2; used = 0; wasted = 0 })
    × (ranged.available ≡ 0 ∷ 1 ∷ [])
    × ((j v : ℕ)
        → get_elem? (10 ∷ 11 ∷ []) j ≡ some v
        → ranged.cells j ≡ new_cell (pos 0) (pos 5) (pos 100) v)
    × WellFormed empty
    × WellFormed made
    × WellFormed ranged
constructors_lem_example = constructors_lem (pos 0) (λ i. i + 7) (10 ∷ 11 ∷ []) 3 (pos 5) (pos 100)
