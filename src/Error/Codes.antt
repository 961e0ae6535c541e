-- ===== src/Error/Codes.antt =====
-- error.hpp: codes, their numbers and their messages.
use resource_pool.Prelude.{ℕ, ◌≤◌, ◌≡◌, ◌↔◌, refl, false, arith}
use resource_pool.Prelude.Int.{pos, negsuc}
use resource_pool.Outcome.{ok, throws, no_message}
use resource_pool.Error.{
  Code, no_error, get_resource_timeout, request_queue_overflow, disabled, make_error_code, failed,
  message,
}

-- An error code made from a code counts as a failure unless that is `ok`; it has its message; codes
-- with one number are one code; and every number that is not one of the four makes `message` throw.
message-make_error_code :
    ((e : Code) → (failed (make_error_code e) ≡ false) ↔ (e ≡ no_error))
    × (message (make_error_code no_error).value ≡ ok "no error")
    × (message (make_error_code get_resource_timeout).value ≡ ok "get resource timeout")
    × (message (make_error_code request_queue_overflow).value ≡ ok "request queue overflow")
    × (message (make_error_code disabled).value ≡ ok "resource pool is disabled")
    × ((e d : Code) → (make_error_code e).value ≡ (make_error_code d).value → e ≡ d)
    × ((n : ℕ) → 4 ≤ n → message (pos n) ≡ throws (no_message (pos n)))
    × ((n : ℕ) → message (negsuc n) ≡ throws (no_message (negsuc n)))
unfolding failed message make_error_code
message-make_error_code = (
  λ e. failed_iff e,
  refl,
  refl,
  refl,
  refl,
  λ e d h. ground arith,
  λ n h. ground arith,
  λ n. refl,
)
  where
    failed_iff : (e : Code) → (failed (make_error_code e) ≡ false) ↔ (e ≡ no_error)
    failed_iff e = (λ h. ground arith, λ h. ground arith)
