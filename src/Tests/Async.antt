-- ===== src/Tests/Async.antt =====
-- The async pool: cells that come back while clients wait, and the handlers of clients.
use resource_pool.Prelude.{
  ℕ, ◌++◌, ◌≡◌, refl, if◌then◌else◌, true, false, some, List, [], ◌∷◌, ◌<◌, count, arith, none,
}
use resource_pool.Prelude.Int.{pos, ◌+ℤ◌, ◌-ℤ◌, ℤ}
use resource_pool.Error.{success}
use resource_pool.TimeTraits.{add}
use resource_pool.Storage
use resource_pool.Storage.{Storage, at}
use resource_pool.Async.Handlers.{Event, run, Completion}
use resource_pool.Async.Queue
use resource_pool.Async.Queue.{Queue, QueuedValue, ExpiringRequest}
use resource_pool.Async.Queue.Invariant.{make-Consistent}
use resource_pool.Async.Queue.Refinement.{view}
use resource_pool.Async.PoolImpl
use resource_pool.Async.PoolImpl.{PoolImpl}
use resource_pool.Async.Queue.Posts.{completions}
use resource_pool.Outcome.{ok}
use resource_pool.Storage.WellFormed.{WellFormed}
use resource_pool.Storage.Return.{is_live}
use resource_pool.Storage.Invalidation.{invalidate-WellFormed}
use resource_pool.Handle.{recycle_strategy, waste_strategy, make_handle, destroy}
use resource_pool.Async.PoolImpl.Turns.{by_recycle, by_waste, give_all, served, served_in_turn}
use resource_pool.Prelude.{map, length, sym, ap}
use resource_pool.Async.PoolImpl.Serving.{Handed, emptied, serve_lem, filled, handed_marked}
use resource_pool.Async.Pool.{OnGetHandler, get, the_impl, make_on_get_handler, on_get}
use resource_pool.Async.Pool.Handles.{asked, AllAnswers, get_answers}
use resource_pool.Storage.Access.{InUse}
use resource_pool.Async.Pool.Returns.{Logged, async_returns, handed_on}
use resource_pool.Tests.Storage.{two, two-WellFormed, leased, leased_facts, held}
use resource_pool.Tests.Requests.{both_wait, seven, eight, view-both_wait}

-- The first of two cells is in use, and both handlers wait.
abbrev crowded : PoolImpl ℕ ℕ
crowded = record { storage = leased; capacity = 2; callbacks = both_wait; is_disabled = false }

serve_lem_example :
    Handed crowded 0 seven
      (eight ∷ [])
      (if is_live (pos 2) 0 leased then leased else emptied crowded 0 leased_facts.1 held)
      (PoolImpl.recycle (pos 2) (at 0) crowded)
    × Handed crowded 0 seven
        (eight ∷ [])
        (emptied crowded 0 leased_facts.1 held)
        (PoolImpl.waste (at 0) crowded)
serve_lem_example =
    serve_lem crowded 0 leased_facts.1 held seven (eight ∷ []) view-both_wait (pos 2)

abbrev stale : PoolImpl ℕ ℕ
stale = PoolImpl.invalidate crowded

stale_storage : WellFormed stale.storage
unfolding PoolImpl.invalidate
stale_storage = invalidate-WellFormed leased leased_facts.1

stale_held : 0 < count 0 stale.storage.used
unfolding PoolImpl.invalidate Storage.invalidate leased
stale_held = omega arith

stale_view : view stale.callbacks ≡ seven ∷ eight ∷ []
unfolding PoolImpl.invalidate
stale_view = view-both_wait

stale_marked : (stale.storage.cells 0).waste_on_recycle ≡ true
unfolding PoolImpl.invalidate Storage.invalidate leased
stale_marked = refl

handed_marked_example :
    (p' : PoolImpl ℕ ℕ) × (events : List (Event ℕ)) × (PoolImpl.recycle (pos 2) (at 0) stale
      ≡ ok (p', events))
    × ((p'.storage.cells 0).value ≡ none)
    × ((later : ℤ) (v : ℕ)
        → Storage.recycle later (at 0) (filled 0 v p'.storage)
          ≡ Storage.waste (at 0) (filled 0 v p'.storage))
handed_marked_example =
    handed_marked stale 0 stale_storage stale_held seven (eight ∷ []) stale_view stale_marked
      (pos 2)

-- Client 9 asks a pool of two available cells.
abbrev blank : OnGetHandler ℕ
blank = record { impl = 0; use_strategy = recycle_strategy; handler = 0 }

abbrev stocked : PoolImpl (OnGetHandler ℕ) ℕ
stocked = record {
  storage = two;
  capacity = 2;
  callbacks = Queue.make 2 blank;
  is_disabled = false;
}

abbrev nine_asked : PoolImpl (OnGetHandler ℕ) ℕ × List (Event (OnGetHandler ℕ))
nine_asked = PoolImpl.get (pos 1) (pos 1) 4 (asked 0 recycle_strategy 9) (pos 0) stocked

nine_got :
    get (record { impl = some 0 }) (pos 1) (pos 1) 4 9 recycle_strategy (pos 0) stocked
    ≡ ok (nine_asked.0, nine_asked.1)
unfolding get the_impl make_on_get_handler
nine_got = refl

get_answers_example : AllAnswers 0 recycle_strategy 9 nine_asked.0 (completions nine_asked.1)
get_answers_example =
    get_answers 0 recycle_strategy 9 stocked (make-Consistent 2 blank) 4 (pos 0) (pos 1)
      (record { impl = some 0 }) (pos 1) nine_asked.0 nine_asked.1 refl two-WellFormed nine_got

-- Client 8 waits for the cell of a handle.
abbrev eight_waits : ExpiringRequest (OnGetHandler ℕ)
eight_waits = record { io_context = 4; request = asked 0 waste_strategy 8; expires_at = pos 5 }

abbrev shared_cells : PoolImpl (OnGetHandler ℕ) ℕ
shared_cells = record {
  storage = leased;
  capacity = 2;
  callbacks = (Queue.push 4 (pos 5) (asked 0 waste_strategy 8) (pos 0) (Queue.make 2 blank)).1;
  is_disabled = false;
}

view-shared_cells : view shared_cells.callbacks ≡ eight_waits ∷ []
unfolding Queue.push add ◌+ℤ◌ ◌-ℤ◌ Queue.make
view-shared_cells = refl

handed_on_example :
    (w : Logged (OnGetHandler ℕ) ℕ) × (destroy async_returns
        (pos 2)
        (make_handle 0 recycle_strategy (at 0))
        (shared_cells, [])
      ≡ ok (w.0, [] ++ w.1))
    × (view w.0.callbacks ≡ [])
    × InUse (at 0) w.0.storage
    × ((done : Completion (OnGetHandler ℕ)) × (completions w.1 ≡ (4, done) ∷ [])
        × (on_get (run done) ≡ record {
          handler = 8;
          error = success;
          handle = make_handle 0 waste_strategy (at 0);
        }))
handed_on_example =
    handed_on shared_cells 0 eight_waits [] (pos 2) 0 recycle_strategy [] leased_facts.1 held
      view-shared_cells

served_in_turn_example :
    (r : PoolImpl ℕ ℕ × List (Event ℕ)) × (give_all (by_recycle (pos 2) ∷ by_waste ∷ []) 0 crowded
      ≡ ok r)
    × (completions r.1 ≡ map (served 0) (view both_wait))
    × (view r.0.callbacks ≡ [])
    × (0 < count 0 r.0.storage.used)
served_in_turn_example =
    served_in_turn (by_recycle (pos 2) ∷ by_waste ∷ []) crowded 0 leased_facts.1 held
      (sym (ap length view-both_wait))
