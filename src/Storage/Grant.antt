-- ===== src/Storage/Grant.antt =====
-- storage.hpp: what `lease` promises of the cell that it gives, and when it gives none.
use resource_pool.Prelude.{
  ℕ, ◌<◌, ◌≡◌, ◌↔◌, ◌⊎◌, inl, inr, refl, sym, ap, subst, false, Bool-cases, Option, some, none,
  List, [], ◌∷◌, ◌++◌, length, length-append, count, arith,
}
use resource_pool.Prelude.Int.{◌<ℤ◌, ltb_ℤ, ltb_ℤ→lt}
use resource_pool.TimeTraits.{TimePoint}
use resource_pool.Storage.{
  Storage, CellIterator, at, expire, take_available, take_wasted, lease_wasted, lease_loop, lease,
}
use resource_pool.Storage.WellFormed.{WellFormed, expire-WellFormed}
use resource_pool.Storage.Lease.{lease-WellFormed}

-- `c` was free and is now the last of the used cells; it holds its old value and is in time, or it
-- is empty; the other cells in use are untouched.
pub record Granted {ℓ} {T : Type ℓ} (now : TimePoint) (s s' : Storage T) (c : ℕ) : Type ℓ where
  pub used : s'.used ≡ s.used ++ c ∷ []
  pub was_free : count c s.used ≡ 0
  pub unmarked : (s'.cells c).waste_on_recycle ≡ false
  pub in_time_or_empty :
      ((s'.cells c ≡ s.cells c) × (now <ℤ (s.cells c).drop_time) × (0 < count c s.available))
      ⊎ ((s'.cells c).value ≡ none)
  pub others_kept : (d : ℕ) → 0 < count d s.used → s'.cells d ≡ s.cells d
  pub settings : (s'.lifespan ≡ s.lifespan) × (s'.nodes ≡ s.nodes)

-- No cell is free, and nothing has changed.
pub record Refused {ℓ} {T : Type ℓ} (s s' : Storage T) : Type ℓ where
  pub unchanged : s' ≡ s
  pub no_available : s.available ≡ []
  pub no_wasted : s.wasted ≡ []

abbrev pub LeaseResult {ℓ} :
    {T : Type ℓ} → TimePoint → Storage T → Option CellIterator × Storage T → Type ℓ
LeaseResult now s (none, s') = Refused s s'
LeaseResult now s (some it, s') = (c : ℕ) × (it ≡ at c) × Granted now s s' c

module _ {ℓ} {T : Type ℓ} where
  lease_wasted-nil : (s : Storage T) → s.wasted ≡ [] → lease_wasted s ≡ (none, s)
  unfolding lease_wasted
  lease_wasted-nil s e = ground arith

  lease_wasted-cons :
      (s : Storage T) (c : ℕ) (l : List ℕ)
      → s.wasted ≡ c ∷ l
      → lease_wasted s ≡ (some (at c), take_wasted c l s)
  unfolding lease_wasted
  lease_wasted-cons s c l e = ground arith

  take_wasted-Granted :
      (now : TimePoint) (s : Storage T) (c : ℕ) (l : List ℕ)
      → s.wasted ≡ c ∷ l
      → WellFormed s
      → Granted now s (take_wasted c l s) c
  unfolding take_wasted
  take_wasted-Granted now s c l e w = record {
    used = refl;
    was_free = ground (arith, w.owned c, ap (count c) e);
    unmarked = ground arith;
    in_time_or_empty = inr (ground (arith, w.wasted_empty c, ap (count c) e));
    others_kept = λ d h. ground (arith, w.owned d, ap (count d) e);
    settings = (refl, refl);
  }

  lease_wasted-LeaseResult :
      (now : TimePoint) (l : List ℕ) (s : Storage T)
      → s.available ≡ []
      → s.wasted ≡ l
      → WellFormed s
      → LeaseResult now s (lease_wasted s)
  lease_wasted-LeaseResult now [] s ea e w =
      subst (LeaseResult now s) (sym (lease_wasted-nil s e))
        (record { unchanged = refl; no_available = ea; no_wasted = e })
  lease_wasted-LeaseResult now (c ∷ l) s ea e w =
      subst (LeaseResult now s) (sym (lease_wasted-cons s c l e))
        (c, refl, take_wasted-Granted now s c l e w)

  take_available-Granted :
      (now : TimePoint) (s : Storage T) (c : ℕ) (l : List ℕ)
      → s.available ≡ c ∷ l
      → WellFormed s
      → now <ℤ (s.cells c).drop_time
      → Granted now s (take_available c l s) c
  unfolding take_available
  take_available-Granted now s c l e w live = record {
    used = refl;
    was_free = ground (arith, w.owned c, ap (count c) e);
    unmarked = ground (arith, w.unmarked c, ap (count c) e);
    in_time_or_empty = inl (refl, live, ground (arith, ap (count c) e));
    others_kept = λ d h. refl;
    settings = (refl, refl);
  }

  -- A cell that `lease` passed over was not in use, and its loss of its value is all that differs.
  expire-LeaseResult :
      (now : TimePoint) (s : Storage T) (c : ℕ) (l : List ℕ) (r : Option CellIterator × Storage T)
      → s.available ≡ c ∷ l
      → WellFormed s
      → LeaseResult now (expire c l s) r
      → LeaseResult now s r
  unfolding expire
  expire-LeaseResult now s c l (none, s') e w h =
      absurd (omega (arith, ap (length {A = ℕ}) h.no_wasted, length-append s.wasted (c ∷ [])))
  expire-LeaseResult now s c l (some it, s') e w (d, i, g) = (
    d,
    i,
    record {
      used = g.used;
      was_free = g.was_free;
      unmarked = g.unmarked;
      in_time_or_empty = ground (arith, w.owned c, ap (count c) e, ap (count d) e);
      others_kept = λ b u. ground (arith, g.others_kept b, w.owned c, ap (count c) e);
      settings = g.settings;
    },
  )

  lease_loop-LeaseResult :
      (now : TimePoint) (l : List ℕ) (s : Storage T)
      → s.available ≡ l
      → WellFormed s
      → LeaseResult now s (lease_loop now l s)
  unfolding lease_loop
  lease_loop-LeaseResult now [] s e w = lease_wasted-LeaseResult now s.wasted s e refl w
  lease_loop-LeaseResult now (c ∷ l) s e w = elim (Bool-cases (ltb_ℤ now (s.cells c).drop_time)) [
    | inl live ↦
        rw live
          (c, refl, take_available-Granted now s c l e w (ltb_ℤ→lt now (s.cells c).drop_time live))
    | inr late ↦ rw late (
        expire-LeaseResult now s c l _ e w (
          lease_loop-LeaseResult now l (expire c l s) (unfold expire in refl)
            (expire-WellFormed s c l w e)))
  ]

  pub lease-LeaseResult :
      (now : TimePoint) (s : Storage T) → WellFormed s → LeaseResult now s (lease now s)
  unfolding lease
  lease-LeaseResult now s w = lease_loop-LeaseResult now s.available s refl w

  pub lease_cases :
      (now : TimePoint) (s : Storage T)
      → WellFormed s
      → ((lease now s ≡ (none, s)) × Refused s s)
        ⊎ ((c : ℕ) × (s' : Storage T) × (lease now s ≡ (some (at c), s'))
            × Granted now s s' c
            × WellFormed s')
  lease_cases now s w =
      by_result (lease now s) (lease-LeaseResult now s w) (lease-WellFormed now s w)
    where
      by_result :
          (r : Option CellIterator × Storage T)
          → LeaseResult now s r
          → WellFormed r.1
          → ((r ≡ (none, s)) × Refused s s)
            ⊎ ((c : ℕ) × (s' : Storage T) × (r ≡ (some (at c), s'))
                × Granted now s s' c
                × WellFormed s')
      by_result (none, s') h w' = inl (
        ap (λ x. (none, x)) h.unchanged,
        record { unchanged = refl; no_available = h.no_available; no_wasted = h.no_wasted },
      )
      by_result (some it, s') (c, e, g) w' = inr (c, s', ap (λ x. (some x, s')) e, g, w')

  -- A cell that `lease` gives from a well-formed storage was free, is now the last of the used cells
  -- and unmarked, and holds its old value and is in time, or else is empty; the cells in use are
  -- untouched, and the storage stays well-formed.
  pub lease-Granted :
      (now : TimePoint) (s s' : Storage T) (c : ℕ)
      → WellFormed s
      → lease now s ≡ (some (at c), s')
      → Granted now s s' c × WellFormed s'
  lease-Granted now s s' c w e =
      let (d, at_d, g) = subst (LeaseResult now s) e (lease-LeaseResult now s w) in
      let d_is_c : d ≡ c = cc in
      (
        subst (Granted now s s') d_is_c g,
        subst (λ (r : Option CellIterator × Storage T). WellFormed r.1) e
            (lease-WellFormed now s w),
      )

  -- `lease` gives nothing exactly when every cell is in use, and then it changes nothing.
  pub lease-none :
      (now : TimePoint) (s : Storage T)
      → WellFormed s
      → ((lease now s ≡ (none, s)) ↔ (length s.used ≡ s.nodes))
        × ((lease now s).0 ≡ none → lease now s ≡ (none, s))
  lease-none now s w = elim (lease_cases now s w) [
    | inl (e, r) ↦ (
      (
        λ _.
            omega
              (arith, w.sizes, ap (length {A = ℕ}) r.no_available, ap (length {A = ℕ}) r.no_wasted),
        λ _. e,
      ),
      λ _. e,
    )
    | inr (c, s', e, g, w') ↦ ((λ h. cc, λ full. absurd (too_many s' c g w' full)), λ h. cc)
  ]
    where
      too_many :
          (s' : Storage T) (c : ℕ)
          → Granted now s s' c
          → WellFormed s'
          → length s.used ≡ s.nodes
          → ⊥
      too_many s' c g w' full =
          omega (
            arith,
            w'.sizes,
            ap (length {A = ℕ}) g.used,
            length-append s.used (c ∷ []),
            g.settings.1,
          )
