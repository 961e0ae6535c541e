-- ===== src/Sync/PoolImpl/Clients.antt =====
-- sync/detail/pool_impl.hpp: the cells that clients hold while threads call the pool.
use resource_pool.Prelude.{ℕ, suc, ◌<◌, ◌≡◌, Option, none, some, List, [], ◌∷◌, ◌++◌, count}
use resource_pool.Outcome.{ok}
use resource_pool.TimeTraits.{TimePoint}
use resource_pool.Storage.{at}
use resource_pool.Storage.Access.{refill}
use resource_pool.Storage.Held.{cell_of}
use resource_pool.Sync.PoolImpl.{PoolImpl, GetResult, get, recycle, waste, disable, invalidate}
use resource_pool.Sync.PoolImpl.Opened.{Opened}
use resource_pool.Sync.PoolImpl.Steps.{with_cv}

-- The cell that a call of `get` returns.
abbrev pub given : Option GetResult → List ℕ
given none = []
given (some (ec, it)) = cell_of it

-- A pool that a constructor has made, and the cells that calls of `get` have returned and that clients have
-- not given back. A thread in `get` goes on after a notification, wakes up for no reason, or gives
-- up, also when it was notified.
pub data Clients {ℓ} {T : Type ℓ} : PoolImpl T → List ℕ → Type ℓ where
  opens : (p : PoolImpl T) → Opened p → Clients p []
  gets :
      (now : TimePoint) {p q : PoolImpl T} {held : List ℕ} {g : Option GetResult}
      → Clients p held
      → get now [] p ≡ (g, q)
      → Clients q (held ++ given g)
  goes_on :
      (now : TimePoint) (n : ℕ) {p q : PoolImpl T} {held : List ℕ} {g : Option GetResult}
      → Clients p held
      → p.has_capacity.notified ≡ suc n
      → get now [] (with_cv p p.has_capacity.waiting n) ≡ (g, q)
      → Clients q (held ++ given g)
  wakes :
      (n : ℕ) {p : PoolImpl T} {held : List ℕ}
      → Clients p held
      → p.has_capacity.waiting ≡ suc n
      → Clients (with_cv p n (suc p.has_capacity.notified)) held
  gives_up :
      (n : ℕ) {p : PoolImpl T} {held : List ℕ}
      → Clients p held
      → p.has_capacity.waiting ≡ suc n
      → Clients (with_cv p n p.has_capacity.notified) held
  times_out :
      (n : ℕ) {p : PoolImpl T} {held : List ℕ}
      → Clients p held
      → p.has_capacity.notified ≡ suc n
      → Clients (with_cv p p.has_capacity.waiting n) held
  recycles :
      (now : TimePoint) (c : ℕ) (before after : List ℕ) {p q : PoolImpl T}
      → Clients p (before ++ c ∷ after)
      → recycle now (at c) p ≡ ok q
      → Clients q (before ++ after)
  wastes :
      (c : ℕ) (before after : List ℕ) {p q : PoolImpl T}
      → Clients p (before ++ c ∷ after)
      → waste (at c) p ≡ ok q
      → Clients q (before ++ after)
  fills :
      (now : TimePoint) (c : ℕ) (v : T) {p : PoolImpl T} {held : List ℕ}
      → Clients p held
      → 0 < count c held
      → Clients (record p { storage = refill now c v p.storage }) held
  disables : {p : PoolImpl T} {held : List ℕ} → Clients p held → Clients (disable p) held
  invalidates : {p : PoolImpl T} {held : List ℕ} → Clients p held → Clients (invalidate p) held
