-- ===== src/Error.antt =====
-- include/yamail/resource_pool/error.hpp: the error codes and their category. An `error_code` of
-- Boost is a number with a category; it converts to `true` when the number is not 0.
pub mod Codes
use Prim.Native.String.{String}
use resource_pool.Prelude.{◌==◌, Bool, true, not, if◌then◌else◌}
use resource_pool.Prelude.Int.{ℤ, pos, negsuc}
use resource_pool.Outcome.{Outcome, ok, throws, no_message}

pub data Code : Type 0 where
  no_error get_resource_timeout request_queue_overflow disabled : Code

pub data Category : Type 0 where
  system pool_errors : Category

pub record ErrorCode : Type 0 where
  pub value : ℤ
  pub category : Category

-- `static_cast<int>(e)`
abbrev pub number : Code → ℤ
number no_error = pos 0
number get_resource_timeout = pos 1
number request_queue_overflow = pos 2
number disabled = pos 3

unfoldable pub make_error_code : Code → ErrorCode
make_error_code e = record { value = number e; category = pool_errors }

-- `boost::system::error_code()`
abbrev pub success : ErrorCode
success = record { value = pos 0; category = system }

-- `static_cast<bool>(ec)`
unfoldable pub failed : ErrorCode → Bool
failed ec = elim ec.value [ pos n ↦ not (n == 0) | negsuc n ↦ true ]

-- `category::message`: the switch, and the exception behind it.
unfoldable pub message : ℤ → Outcome String
message (pos n) =
    if n == 0
    then ok "no error"
    else if n == 1
    then ok "get resource timeout"
    else if n == 2
    then ok "request queue overflow"
    else if n == 3
    then ok "resource pool is disabled"
    else throws (no_message (pos n))
message (negsuc n) = throws (no_message (negsuc n))
