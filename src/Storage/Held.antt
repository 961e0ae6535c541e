-- ===== src/Storage/Held.antt =====
-- storage.hpp: the cells that clients hold are those in use, whichever go out and come back.
use resource_pool.Prelude.{
  ℕ, suc, ◌+◌, ◌<◌, ◌≤◌, ◌≡◌, sym, ap, List, [], ◌∷◌, ◌++◌, length, length-append, count,
  count-append, erase, count-erase, length-erase, arith,
}
use resource_pool.Storage.{Storage, CellIterator, at, singular}
use resource_pool.Storage.WellFormed.{WellFormed}

-- The cell of an iterator.
abbrev pub cell_of : CellIterator → List ℕ
cell_of singular = []
cell_of (at c) = c ∷ []

-- Exactly the cells in use are held, each as often as it is in use.
pub record Held {ℓ} {T : Type ℓ} (held : List ℕ) (s : Storage T) : Type 0 where
  pub own : (c : ℕ) → count c held ≡ count c s.used
  pub as_many : length held ≡ length s.used

module _ {ℓ} {T : Type ℓ} where
  pub nobody-Held : (s : Storage T) → s.used ≡ [] → Held [] s
  nobody-Held s e = record { own = λ d. sym (ap (count d) e); as_many = sym (ap length e) }

module _ {ℓ} {T : Type ℓ} (s s' : Storage T) where
  pub same-Held : (held : List ℕ) → s'.used ≡ s.used → Held held s → Held held s'
  same-Held held e a = record {
    own = λ d. omega (arith, a.own d, ap (count d) e);
    as_many = omega (arith, a.as_many, ap (length {A = ℕ}) e);
  }

  -- A cell goes out.
  pub lent-Held :
      (held : List ℕ) (c : ℕ) → s'.used ≡ s.used ++ c ∷ [] → Held held s → Held (held ++ c ∷ []) s'
  lent-Held held c e a = record {
    own = λ d. omega (
      arith,
      a.own d,
      ap (count d) e,
      count-append d s.used (c ∷ []),
      count-append d held (c ∷ []),
    );
    as_many = omega (
      arith,
      a.as_many,
      ap (length {A = ℕ}) e,
      length-append s.used (c ∷ []),
      length-append held (c ∷ []),
    );
  }

module _ {ℓ} {T : Type ℓ} (s : Storage T) (c : ℕ) (before after : List ℕ)
    (a : Held (before ++ c ∷ after) s) where
  pub held_in_use : 0 < count c s.used
  held_in_use =
      let here : count c (c ∷ after) ≡ suc (count c after) = ground arith in
      omega (arith, a.own c, count-append c before (c ∷ after), here)

  -- It comes back,
  pub back-Held : (s' : Storage T) → s'.used ≡ erase c s.used → Held (before ++ after) s'
  back-Held s' less = record {
    own = λ d. omega (
      arith,
      a.own d,
      ap (count d) less,
      count-erase d c s.used held_in_use,
      count-append d before (c ∷ after),
      count-append d before after,
    );
    as_many = omega (
      arith,
      a.as_many,
      ap (length {A = ℕ}) less,
      length-erase c s.used held_in_use,
      length-append before (c ∷ after),
      length-append before after,
    );
  }

  -- or goes on to another client.
  pub passed-Held : (s' : Storage T) → s'.used ≡ s.used → Held ((before ++ after) ++ c ∷ []) s'
  passed-Held s' same = record {
    own = λ d. omega (
      arith,
      a.own d,
      ap (count d) same,
      count-append d before (c ∷ after),
      count-append d before after,
      count-append d (before ++ after) (c ∷ []),
    );
    as_many = omega (
      arith,
      a.as_many,
      ap (length {A = ℕ}) same,
      length-append before (c ∷ after),
      length-append before after,
      length-append (before ++ after) (c ∷ []),
    );
  }

-- A cell that is held is in the hands of one client, and is not free.
pub Held-once {ℓ} :
    {T : Type ℓ} (held : List ℕ) (s : Storage T)
    → Held held s
    → WellFormed s
    → (c : ℕ)
    → (count c held ≡ count c s.used) × (count c held + count c s.available + count c s.wasted ≤ 1)
Held-once held s a w c = (a.own c, ground (arith, a.own c, w.owned c))
