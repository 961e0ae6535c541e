-- ===== src/Storage/Access.antt =====
-- handle.hpp: a handle reads and writes a cell through its iterator, `*_resource_it`.
use resource_pool.TimeTraits.{TimePoint}
use resource_pool.Prelude.{some, ℕ, ◌<◌, ◌≡◌, count, arith}
use resource_pool.Outcome.{Outcome, ok, ◌>>=◌}
use resource_pool.Idle.{Idle, update}
use resource_pool.Storage.{Storage, CellIterator, at, deref}
use resource_pool.Storage.WellFormed.{WellFormed, write-WellFormed}
use resource_pool.Storage.Return.{deref_lem}

module _ {ℓ} {T : Type ℓ} where
  unfoldable pub load : CellIterator → Storage T → Outcome (Idle T)
  load it s = do c ← deref it s; ok (s.cells c)

  unfoldable pub store : CellIterator → Idle T → Storage T → Outcome (Storage T)
  store it x s = do c ← deref it s; ok (record s { cells = update s.cells c x })

-- `handle::reset` of a cell: its value and the time that it was set.
abbrev pub refill {ℓ} : {T : Type ℓ} → TimePoint → ℕ → T → Storage T → Storage T
refill now c v s = record s {
  cells = update s.cells c (record (s.cells c) { value = some v; reset_time = now });
}

-- A cell that is lent: one of the used cells of a well-formed storage.
pub data InUse {ℓ} {T : Type ℓ} (it : CellIterator) (s : Storage T) : Type ℓ where
  in_use : (c : ℕ) → it ≡ at c → WellFormed s → 0 < count c s.used → InUse it s

module _ {ℓ} {T : Type ℓ} where
  pub load_defined :
      (it : CellIterator) (s : Storage T) → InUse it s → (x : Idle T) × (load it s ≡ ok x)
  unfolding load
  load_defined it s (in_use c e w held) = (s.cells c, rw (e, deref_lem s c w held))

  pub store_defined :
      (it : CellIterator) (x : Idle T) (s : Storage T)
      → InUse it s
      → (s' : Storage T) × (store it x s ≡ ok s') × InUse it s' × (load it s' ≡ ok x)
  unfolding load store
  store_defined it x s (in_use c e w held) =
      let s' : Storage T = record s { cells = update s.cells c x } in
      let w' = write-WellFormed s c x w held in
      (
        s',
        rw (e, deref_lem s c w held),
        in_use c e w' held,
        rw (e, deref_lem s' c w' held) (ground arith),
      )
