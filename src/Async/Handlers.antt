-- ===== src/Async/Handlers.antt =====
-- The function objects of async/detail/queue.hpp and async/detail/pool_impl.hpp that are posted to
-- an `io_context`, and the call of the client's handler that each of them makes when it runs.
use resource_pool.Prelude.{ℕ}
use resource_pool.Error.{ErrorCode, make_error_code, success, get_resource_timeout}
use resource_pool.TimeTraits.{TimePoint}
use resource_pool.Storage.{CellIterator, singular}

pub data Completion {ℓ} (H : Type ℓ) : Type ℓ where
  expired_handler : H → Completion H
  on_list_iterator_handler : ErrorCode → CellIterator → H → Completion H
  on_error_handler : ErrorCode → H → Completion H
  on_serve_queued_handler : CellIterator → H → Completion H

-- What Boost.Asio is asked to do: an `io_context` is a number, a timer is known by its context.
-- `wait_timer io t` is `async_wait` with the handler that calls `cancel` with `t`.
pub data Event {ℓ} (H : Type ℓ) : Type ℓ where
  post dispatch : ℕ → Completion H → Event H
  cancel_timer : ℕ → Event H
  set_timer wait_timer : ℕ → TimePoint → Event H

-- A call of a client's handler.
pub record Call {ℓ} (H : Type ℓ) : Type ℓ where
  pub handler : H
  pub error : ErrorCode
  pub cell : CellIterator

-- The three call operators of `list_iterator_handler`.
module _ {ℓ} {H : Type ℓ} where
  abbrev pub call : H → ErrorCode → CellIterator → Call H
  call h ec it = record { handler = h; error = ec; cell = it }

  abbrev pub call_error : H → ErrorCode → Call H
  call_error h ec = call h ec singular

  abbrev pub call_cell : H → CellIterator → Call H
  call_cell h it = call h success it

  -- `expired_handler::operator ()`
  abbrev pub run_expired : H → Call H
  run_expired h = call_error h (make_error_code get_resource_timeout)

  -- `operator ()` of each function object.
  unfoldable pub run : Completion H → Call H
  run (expired_handler h) = run_expired h
  run (on_list_iterator_handler ec it h) = call h ec it
  run (on_error_handler ec h) = call_error h ec
  run (on_serve_queued_handler it h) = call_cell h it
