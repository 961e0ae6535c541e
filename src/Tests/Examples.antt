-- ===== src/Tests/Examples.antt =====
-- The example programs: streams that are numbers, of which 0 is not good.
use resource_pool.Prelude.{ℕ, suc, ◌==◌, ◌≡◌, refl, sym, subst, ◌∙◌, not, false, some}
use resource_pool.Prelude.Int.{pos, negsuc, ◌-ℤ◌}
use resource_pool.TimeTraits.{time_min}
use resource_pool.Outcome.{ok, ◌>>=◌, ok-injective}
use resource_pool.Idle.{Idle}
use resource_pool.Error.{success, failed}
use resource_pool.Storage.{at}
use resource_pool.Handle.{recycle_strategy, make_handle}
use resource_pool.Sync.PoolImpl.{PoolImpl}
use resource_pool.Sync.Pool.Handles.{sync_returns}
use resource_pool.Storage.Access.{load, InUse}
use resource_pool.Examples.{Streams, count_from_min, on_get, strand_on_get, coroutine}
use resource_pool.Examples.Returned.{Ending, clients_give_back}
use resource_pool.Examples.SyncMain.{main}
use resource_pool.Examples.SyncRun.{Left, main_lem}
use resource_pool.Tests.Handle.{lending, lent}
use resource_pool.Tests.Storage.{leased}
use resource_pool.Storage

abbrev pub counters : Streams ℕ
counters = record { good = λ n. not (n == 0); write = λ n stamp. suc n }

pub at_epoch : count_from_min (pos 0) ≡ ok time_min
unfolding count_from_min ◌-ℤ◌
at_epoch = refl

lending_load : load (at 0) lending.storage ≡ ok (lending.storage.cells 0)
unfolding lending leased load Storage.deref
lending_load = refl

fine : failed success ≡ false
unfolding failed
fine = refl

-- No write ends the use of the cell.
abbrev InUseStill : PoolImpl ℕ → Type 0
InUseStill p = InUse (at 0) p.storage

store-InUseStill :
    (x : Idle ℕ) (p q : PoolImpl ℕ)
    → sync_returns.Lent 0 (at 0) p
    → InUseStill p
    → sync_returns.store (at 0) x p ≡ ok q
    → InUseStill q
store-InUseStill x p q h frame e =
    let (r, stored, h', _) = sync_returns.store_lem 0 (at 0) x p h in
    subst (λ o. InUse (at 0) o.storage) (ok-injective (sym stored ∙ e)) h'

clients_give_back_example :
    Ending sync_returns counters 0 recycle_strategy
      (at 0)
      (pos 3)
      (pos 0)
      time_min
      at_epoch
      InUseStill
      store-InUseStill
      (lending.storage.cells 0)
      5
      lending
      (on_get sync_returns counters
        (pos 2)
        (pos 3)
        5
        (pos 0)
        success
        (make_handle 0 recycle_strategy (at 0))
        lending)
    × Ending sync_returns counters 0 recycle_strategy
        (at 0)
        (pos 3)
        (pos 0)
        time_min
        at_epoch
        InUseStill
        store-InUseStill
        (lending.storage.cells 0)
        5
        lending
        (strand_on_get sync_returns counters
          (pos 2)
          (pos 3)
          5
          (pos 0)
          success
          (make_handle 0 recycle_strategy (at 0))
          lending)
    × Ending sync_returns counters 0 recycle_strategy
        (at 0)
        (pos 3)
        (pos 0)
        time_min
        at_epoch
        InUseStill
        store-InUseStill
        (lending.storage.cells 0)
        5
        lending
        (coroutine sync_returns counters
          (pos 2)
          (pos 3)
          5
          (pos 0)
          success
          (make_handle 0 recycle_strategy (at 0))
          lending)
clients_give_back_example =
    clients_give_back sync_returns counters 0 recycle_strategy (at 0) InUseStill store-InUseStill
      (pos 2) (pos 3) 5 (pos 0) time_min at_epoch success lending (lending.storage.cells 0) fine
      lent lent lending_load

main_lem_example :
    (q : PoolImpl ℕ) × (main counters (negsuc 9) (pos 3) (some 5) (pos 0)
      ≡ (do _ ← count_from_min (pos 0); ok (some (pos 0, q))))
    × Left q
main_lem_example = main_lem counters (negsuc 9) (pos 3) (some 5) (pos 0)
