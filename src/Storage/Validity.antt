-- ===== src/Storage/Validity.antt =====
-- storage.hpp: a resource that `lease` hands out has not outlived its lifespan; and a pool with the
-- default settings drops no resource by age.
use resource_pool.Prelude.{
  ℕ, ◌<◌, ◌≡◌, ◌≢◌, inl, inr, ap, true, not, none, some, count, count-append, [], ◌∷◌, arith,
}
use resource_pool.Prelude.Int.{◌≤ℤ◌, ◌<ℤ◌, -ℤ_parts, +ℤ_parts, eq_of_parts, ◌+ℤ◌}
use resource_pool.Outcome.{ok}
use resource_pool.TimeTraits.{TimePoint, time_max, epoch, add}
use resource_pool.Storage.{Storage, at, lease, is_valid, recycle, put_available}
use resource_pool.Storage.WellFormed.{WellFormed}
use resource_pool.Storage.Grant.{Granted, lease-Granted}
use resource_pool.Storage.Return.{is_live, is_valid_lem, recycle_lem}

module _ {ℓ} {T : Type ℓ} where
  Granted-is_live :
      (now : TimePoint) (s s' : Storage T) (c : ℕ)
      → WellFormed s
      → Granted now s s' c
      → (s'.cells c).value ≢ none
      → is_live now c s' ≡ true
  unfolding is_live
  Granted-is_live now s s' c w g full = elim g.in_time_or_empty [
    | inl (same, live, free) ↦ ground (arith, same, g.unmarked, w.within c free, g.settings)
    | inr gone ↦ absurd (full gone)
  ]

  -- A cell that `lease` gives with a value in it is valid at that time: the value has not outlived
  -- its lifespan and was not invalidated, so a return at once would make it available again.
  pub is_valid-lease :
      (now : TimePoint) (s s' : Storage T) (c : ℕ)
      → WellFormed s
      → lease now s ≡ (some (at c), s')
      → (s'.cells c).value ≢ none
      → (is_valid now (at c) s' ≡ ok true) × (recycle now (at c) s' ≡ ok (put_available now c s'))
  is_valid-lease now s s' c w e full =
      let (g, w') = lease-Granted now s s' c w e in
      let live = Granted-is_live now s s' c w g full in
      let held : 0 < count c s'.used =
        ground (arith, ap (count c) g.used, count-append c s.used (c ∷ [])) in
      (rw (is_valid_lem s' c w' held now, live), rw (recycle_lem s' c w' held now, live))

-- A sum with the greatest duration saturates.
add_forever : (t : TimePoint) → epoch ≤ℤ t → add t time_max ≡ time_max
unfolding add
add_forever t h =
    ground (arith, -ℤ_parts time_max t, +ℤ_parts t time_max, eq_of_parts (t +ℤ time_max) time_max)

module _ {ℓ} {T : Type ℓ} (s : Storage T) (c : ℕ) (w : WellFormed s) (held : 0 < count c s.used)
    (forever : (s.idle_timeout ≡ time_max) × (s.lifespan ≡ time_max)) where
  -- With the default settings, and clock readings from the epoch on and before the end of time, age
  -- drops nothing: a used cell is valid unless it is marked, and one that is put back is dropped at
  -- the end of time.
  pub default_settings :
      (now : TimePoint)
      → epoch ≤ℤ now
      → now <ℤ time_max
      → epoch ≤ℤ (s.cells c).reset_time
      → (is_valid now (at c) s ≡ ok (not (s.cells c).waste_on_recycle))
        × (((put_available now c s).cells c).drop_time ≡ time_max)
  default_settings now later before reset = (
    rw (is_valid_lem s c w held now)
        (unfold is_live in rw (forever.1, add_forever (s.cells c).reset_time reset) (ground arith)),
    unfold put_available in
        rw (forever.0, forever.1, add_forever (s.cells c).reset_time reset, add_forever now later)
          (ground arith),
  )
