-- ===== src/Storage/Lease.antt =====
-- storage.hpp: `lease` against a reference definition, and what it promises of the cell.
use resource_pool.Prelude.{
  ℕ, if◌then◌else◌, ◌≡◌, inl, inr, refl, Bool-cases, Option, some, none, List, [], ◌∷◌, ◌++◌, arith,
}
use mathlib.Core.List.{append_assoc, append-nil}
use resource_pool.Prelude.Int.{ltb_ℤ}
use resource_pool.Idle.{Idle}
use resource_pool.TimeTraits.{TimePoint}
use resource_pool.Storage.{
  Storage, CellIterator, at, expire, take_available, lease_wasted, lease_loop, lease,
}
use resource_pool.Storage.WellFormed.{
  WellFormed, expire-WellFormed, take_available-WellFormed, take_wasted-WellFormed,
}

-- What `lease` gives and leaves: the first cell that is in time, or else the first wasted one;
-- the cells passed over go behind the wasted ones.
unfoldable pub lease_from : List ℕ → List ℕ → Option CellIterator × List ℕ × List ℕ
lease_from (c ∷ cs) wasted = (some (at c), cs, wasted)
lease_from [] (c ∷ cs) = (some (at c), [], cs)
lease_from [] [] = (none, [], [])

module _ {ℓ} {T : Type ℓ} where
  -- The cells of a list that are past their drop time before the first one that is not, and that
  -- one with the cells behind it.
  unfoldable pub dropped : TimePoint → (ℕ → Idle T) → List ℕ → List ℕ
  dropped now cells [] = []
  dropped now cells (c ∷ cs) =
      if ltb_ℤ now (cells c).drop_time then [] else c ∷ dropped now cells cs

  unfoldable pub fresh : TimePoint → (ℕ → Idle T) → List ℕ → List ℕ
  fresh now cells [] = []
  fresh now cells (c ∷ cs) = if ltb_ℤ now (cells c).drop_time then c ∷ cs else fresh now cells cs

  dropped-expire :
      (now : TimePoint) (s : Storage T) (c : ℕ) (rest l : List ℕ)
      → dropped now (expire c rest s).cells l ≡ dropped now s.cells l
  unfolding dropped expire
  dropped-expire now s c rest [] = refl
  dropped-expire now s c rest (d ∷ l) = ground (arith, dropped-expire now s c rest l)

  fresh-expire :
      (now : TimePoint) (s : Storage T) (c : ℕ) (rest l : List ℕ)
      → fresh now (expire c rest s).cells l ≡ fresh now s.cells l
  unfolding fresh expire
  fresh-expire now s c rest [] = refl
  fresh-expire now s c rest (d ∷ l) = ground (arith, fresh-expire now s c rest l)

  abbrev Follows : Option CellIterator × Storage T → Option CellIterator × List ℕ × List ℕ → Type 0
  Follows r e = (r.0 ≡ e.0) × (r.1.available ≡ e.1) × (r.1.wasted ≡ e.2)

  lease_loop-lease_from :
      (now : TimePoint) (l : List ℕ) (s : Storage T)
      → s.available ≡ l
      → Follows
          (lease_loop now l s)
          (lease_from (fresh now s.cells l) (s.wasted ++ dropped now s.cells l))
  unfolding lease_loop dropped fresh lease_from expire lease_wasted take_available
  lease_loop-lease_from now [] s e = rw append-nil (ground arith)
  lease_loop-lease_from now (c ∷ l) s e = elim (Bool-cases (ltb_ℤ now (s.cells c).drop_time)) [
    | inl live ↦ rw (live, append-nil) (refl, refl, refl)
    | inr late ↦ rw late (
        rw (fresh-expire now s c l l, dropped-expire now s c l l, append_assoc) at
          (lease_loop-lease_from now l (expire c l s) refl))
  ]

  -- `lease` gives the first available cell that is in time, or else the first wasted one, and puts
  -- the available cells that it passes over behind the wasted ones.
  pub lease-lease_from :
      (now : TimePoint) (s : Storage T)
      → let e =
          lease_from
            (fresh now s.cells s.available)
            (s.wasted ++ dropped now s.cells s.available) in
        let r = lease now s in (r.0 ≡ e.0) × (r.1.available ≡ e.1) × (r.1.wasted ≡ e.2)
  unfolding lease
  lease-lease_from now s = lease_loop-lease_from now s.available s refl

  lease_wasted-WellFormed :
      (l : List ℕ) (s : Storage T) → s.wasted ≡ l → WellFormed s → WellFormed (lease_wasted s).1
  unfolding lease_wasted
  lease_wasted-WellFormed [] s e w = rw (e, lease_wasted) w
  lease_wasted-WellFormed (c ∷ l) s e w = rw (e, lease_wasted) (take_wasted-WellFormed s c l w e)

  lease_loop-WellFormed :
      (now : TimePoint) (l : List ℕ) (s : Storage T)
      → s.available ≡ l
      → WellFormed s
      → WellFormed (lease_loop now l s).1
  unfolding lease_loop expire
  lease_loop-WellFormed now [] s e w = lease_wasted-WellFormed s.wasted s refl w
  lease_loop-WellFormed now (c ∷ l) s e w = elim (Bool-cases (ltb_ℤ now (s.cells c).drop_time)) [
    | inl live ↦ rw live (take_available-WellFormed s c l w e)
    | inr late ↦
        rw late (lease_loop-WellFormed now l (expire c l s) refl (expire-WellFormed s c l w e))
  ]

  pub lease-WellFormed :
      (now : TimePoint) (s : Storage T) → WellFormed s → WellFormed (lease now s).1
  unfolding lease
  lease-WellFormed now s w = lease_loop-WellFormed now s.available s refl w
