-- ===== src/Storage/Return.antt =====
-- storage.hpp: how a cell in use comes back, by `recycle` or by `waste`, and what `is_valid` tells.
use resource_pool.Prelude.{
  ℕ, suc, ◌<◌, if◌then◌else◌, ◌≡◌, ◌↔◌, inl, inr, refl, sym, subst, ◌∙◌, Bool, not, ◌&&◌, false,
  true, Bool-cases, length, count, erase, length-erase, arith,
}
use resource_pool.Prelude.Int.{◌<ℤ◌, ltb_ℤ}
use resource_pool.Outcome.{ok, undefined, ok-injective}
use resource_pool.TimeTraits.{TimePoint}
use resource_pool.Storage.{
  Storage, CellIterator, at, singular, life_end, put_wasted, put_available, waste, recycle,
  is_valid, deref,
}
use resource_pool.Storage.WellFormed.{WellFormed, put_wasted-WellFormed, put_available-WellFormed}

-- A cell that may go back among the available ones: not marked, and not at the end of its life.
unfoldable pub is_live {ℓ} : {T : Type ℓ} → TimePoint → ℕ → Storage T → Bool
is_live now c s = not (s.cells c).waste_on_recycle && ltb_ℤ now (life_end s c)

module _ {ℓ} {T : Type ℓ} (s : Storage T) (c : ℕ) (w : WellFormed s)
    (held : 0 < count c s.used) where
  pub deref_lem : deref (at c) s ≡ ok c
  unfolding deref
  deref_lem = ground (arith, w.owned c)

  pub waste_lem : waste (at c) s ≡ ok (put_wasted c s)
  unfolding waste
  waste_lem = ground (arith, w.owned c)

  pub is_valid_lem : (now : TimePoint) → is_valid now (at c) s ≡ ok (is_live now c s)
  unfolding is_valid is_live
  is_valid_lem now = ground (arith, w.owned c)

  pub recycle_lem :
      (now : TimePoint)
      → recycle now (at c) s
        ≡ ok (if is_live now c s then put_available now c s else put_wasted c s)
  unfolding recycle is_live
  recycle_lem now = ground (arith, w.owned c)

  -- `is_valid` tells of a cell in use whether it is unmarked and has not reached the end of its life,
  -- and exactly then `recycle` makes it available again; otherwise `recycle` does what `waste` does.
  pub recycle-is_valid :
      (now : TimePoint)
      → (valid : Bool) × (is_valid now (at c) s ≡ ok valid)
        × ((valid ≡ true) ↔ (((s.cells c).waste_on_recycle ≡ false) × (now <ℤ life_end s c)))
        × (recycle now (at c) s ≡ (if valid then ok (put_available now c s) else waste (at c) s))
  recycle-is_valid now = (
    is_live now c s,
    is_valid_lem now,
    (λ e. unfold is_live in ground arith, λ e. unfold is_live in ground arith),
    elim (Bool-cases (is_live now c s)) [
      | inl live ↦ rw (recycle_lem now, live)
      | inr dead ↦ rw (recycle_lem now, dead, waste_lem)
    ],
  )

  pub returned-WellFormed :
      (now : TimePoint)
      → WellFormed (if is_live now c s then put_available now c s else put_wasted c s)
  returned-WellFormed now = elim (Bool-cases (is_live now c s)) [
    | inl live ↦ rw live (put_available-WellFormed s c w held now (unfold is_live in ground arith))
    | inr dead ↦ rw dead (put_wasted-WellFormed s c w held)
  ]

  -- Either way the cell is no longer in use.
  pub returned_lem :
      (now : TimePoint)
      → let s' = if is_live now c s then put_available now c s else put_wasted c s in
        (s'.used ≡ erase c s.used) × (s'.nodes ≡ s.nodes)
  unfolding put_available put_wasted
  returned_lem now = elim (Bool-cases (is_live now c s)) [
    | inl live ↦ rw live (refl, refl)
    | inr dead ↦ rw dead (refl, refl)
  ]

-- A return that is defined is one of a cell in use.
module _ {ℓ} {T : Type ℓ} (now : TimePoint) (s s' : Storage T) (c : ℕ) where
  pub waste-held : waste (at c) s ≡ ok s' → 0 < count c s.used
  unfolding waste
  waste-held e = ground arith

  pub recycle-held : recycle now (at c) s ≡ ok s' → 0 < count c s.used
  unfolding recycle
  recycle-held e = ground arith

module _ {ℓ} {T : Type ℓ} (now : TimePoint) (s s' : Storage T) where
  pub waste-WellFormed : (it : CellIterator) → waste it s ≡ ok s' → WellFormed s → WellFormed s'
  unfolding waste
  waste-WellFormed singular e w = cc
  waste-WellFormed (at c) e w =
      let held = waste-held now s s' c e in
      subst WellFormed (ok-injective (sym (waste_lem s c w held) ∙ e))
        (put_wasted-WellFormed s c w held)

  -- A `recycle` that is defined keeps the storage well-formed, whatever its iterator.
  pub recycle-WellFormed :
      (it : CellIterator) → recycle now it s ≡ ok s' → WellFormed s → WellFormed s'
  unfolding recycle
  recycle-WellFormed singular e w = cc
  recycle-WellFormed (at c) e w =
      let held = recycle-held now s s' c e in
      subst WellFormed (ok-injective (sym (recycle_lem s c w held now) ∙ e))
        (returned-WellFormed s c w held now)

-- An iterator that is not into the used cells must not be returned.
return_undefined {ℓ} :
    {T : Type ℓ} (now : TimePoint) (s : Storage T) (c : ℕ)
    → count c s.used ≡ 0
    → (recycle now (at c) s ≡ undefined) × (waste (at c) s ≡ undefined)
unfolding recycle
return_undefined now s c h = (ground arith, ground arith)

-- A cell that comes back is one cell fewer in use.
module _ {ℓ} {T : Type ℓ} (s : Storage T) (c : ℕ) (w : WellFormed s) (held : 0 < count c s.used)
    (now : TimePoint) where
  abbrev OneBack : Storage T → Type 0
  OneBack s' = (s'.nodes ≡ s.nodes) × (length s.used ≡ suc (length s'.used))

  one_back :
      OneBack (put_wasted c s)
      × OneBack (if is_live now c s then put_available now c s else put_wasted c s)
  one_back = (
    wasted,
    elim (Bool-cases (is_live now c s)) [
      | inl live ↦ rw live (unfold put_available in (refl, length-erase c s.used held))
      | inr dead ↦ rw dead wasted
    ],
  )
    where
      wasted : OneBack (put_wasted c s)
      wasted = unfold put_wasted in (refl, length-erase c s.used held)

  pub recycle_back : (s' : Storage T) → recycle now (at c) s ≡ ok s' → OneBack s'
  recycle_back s' e = subst OneBack (ok-injective (sym (recycle_lem s c w held now) ∙ e)) one_back.1

  pub waste_back : (s' : Storage T) → waste (at c) s ≡ ok s' → OneBack s'
  waste_back s' e = subst OneBack (ok-injective (sym (waste_lem s c w held) ∙ e)) one_back.0
