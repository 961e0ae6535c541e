-- ===== src/Lib.antt =====
-- resource_pool: a pool of reusable resources, such as connections (include/yamail/resource_pool).
--
-- A pool has a fixed number of cells. A cell is available with a resource in it, in use by a
-- client, or wasted, that is free and empty. A client gets a handle of a cell, fills it if it is
-- empty, and gives it back by `recycle` or `waste`, at the latest when the handle is destroyed.
-- Resources are dropped when they have been idle too long, when their lifespan ends, and by
-- `invalidate`.
--
-- The files, under include/yamail/resource_pool unless said otherwise:
--   TimeTraits, TimeTraits/Saturation   time_traits.hpp: `add` over the ticks of the clock
--   Error, Error/Codes, Outcome         error.hpp: codes, messages, exceptions
--   Idle, Storage, Storage/*            detail/idle.hpp, detail/storage.hpp: the cells and their lists
--   Handle, Handle/Lifecycle            handle.hpp, over the interface of detail/pool_returns.hpp
--   Sync/PoolImpl, Sync/PoolImpl/*      sync/detail/pool_impl.hpp: the pool under its mutex
--   Sync/Pool, Sync/Pool/Handles        sync/pool.hpp: the pool that clients see
--   Async/Handlers, Async/Executors     async/detail: the function objects that are posted
--   Async/Queue, Async/Queue/*          async/detail/queue.hpp: requests in order, and their deadlines
--   Async/PoolImpl, Async/PoolImpl/*    async/detail/pool_impl.hpp: the pool, its queue, and their runs
--   Async/Pool, Async/Pool/*            async/pool.hpp: the pool that clients see
--   Examples, Examples/*                examples: four programs that share a log file through a pool
--   Prelude, Prelude/*                  numbers, integers and lists that the others share
--   Tests/*                             runs and instances of the theorems
--
-- How code and model correspond. State is a record, and an operation is a function of the same
-- name from the state to its result and the new state; `Outcome` adds exceptions and undefined
-- behaviour. The clock reading that an operation takes from `now()` is an argument, as are the
-- values of a generator. List nodes keep their addresses when they are spliced, so a cell iterator
-- is an address in a store of cells, or singular. An operation under a mutex is one step. `get` of
-- the sync pool gives the mutex up while it waits: it takes the list of what each `wait_for`
-- returned and of what the other threads did meanwhile, and recurs on that list, so no fuel is
-- needed. A condition variable is the number of threads that wait on it and the number that have
-- been woken; a thread that has been woken may still be told that its time is up. Sizes and addresses are natural numbers, since they count nodes in memory; ticks are
-- integers, and `add` is shown to stay within `int64_t`.
--
-- In the asynchronous pool an operation also returns what it asks Boost.Asio to do, in order:
-- handlers to post or dispatch, timers to set, wait for and cancel. `get` is two steps, since it
-- gives the mutex up between `lease` and `push`; a run of a pool is any sequence of such steps, of
-- the ends of timers and of the other operations. The nodes of the request lists keep their
-- addresses as cells do, and the multimap is the list of its entries in order. The loop of
-- `disable` has fuel, one more than the number of requests, which is shown to be enough. As one
-- step `disable` leaves the handlers that it dispatches to their contexts; `disable_locked` takes a
-- test for handlers that would run in place and lock the mutex again, and the steps of the
-- refinement are the start of `disable` and each of its rounds, since the mutex of the pool keeps
-- neither timers nor `push` out between them. A run
-- counts the cells that answers have given to clients and that clients have not returned; a serial
-- run has `get` as one step. Async/PoolImpl/Promise is what clients may count on: a bag of cells, a
-- queue of requests and a flag, and what each action may be answered with.
--
-- The example programs are functions over the interface of handles, so that they run on either
-- pool; their file stream is a parameter. The number they print is computed from the clock's reading
-- with the overflow of 64 bits, which is undefined behaviour. Their loops run what is
-- posted in any order, each call of a client as a whole, since there is one thread or one strand;
-- waits to the end of time do not end in them.
--
-- Not modelled: Boost.Asio itself (what an executor does, when a timer's wait ends, in what order
-- posted handlers run), completion tokens (the coroutine of the example starts with its
-- answer), allocation failure, move-only resource types, the fairness of the scheduler, and which
-- of several waiting threads is woken.
mod Prelude
pub mod TimeTraits
pub mod Outcome
pub mod Error
pub mod Idle
pub mod Storage
pub mod Handle
pub mod Sync
pub mod Async
pub mod Examples
mod Tests
