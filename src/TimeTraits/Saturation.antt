-- ===== src/TimeTraits/Saturation.antt =====
-- `time_traits::add` saturates and never overflows.
use resource_pool.Prelude.{◌≡◌, some, if◌then◌else◌, arith}
use resource_pool.Prelude.Int.{ℤ, pos, ◌+ℤ◌, ◌-ℤ◌, ltb_ℤ, +ℤ_parts, -ℤ_parts}
use resource_pool.TimeTraits.{TimePoint, Duration, time_max, time_min, InRange, add, checked_add}

-- The exact sum, cut off at both ends of the range.
unfoldable pub clamp : ℤ → ℤ
clamp t = if ltb_ℤ time_max t then time_max else if ltb_ℤ t time_min then time_min else t

-- For a time point and a duration that fit in `int64_t`, no intermediate result of `add` overflows,
-- and the result is the exact sum, cut off at `time_point::min()` and `time_point::max()`.
pub checked_add-clamp :
    (t : TimePoint) (d : Duration)
    → InRange t
    → InRange d
    → (checked_add t d ≡ some (clamp (t +ℤ d))) × (add t d ≡ clamp (t +ℤ d))
unfolding checked_add add clamp
checked_add-clamp t d ht hd = (
  ground (
    arith,
    +ℤ_parts t d,
    -ℤ_parts time_max t,
    -ℤ_parts t time_min,
    -ℤ_parts (pos 0) (t -ℤ time_min),
  ),
  ground (
    arith,
    +ℤ_parts t d,
    -ℤ_parts time_max t,
    -ℤ_parts t time_min,
    -ℤ_parts (pos 0) (t -ℤ time_min),
  ),
)

pub clamp-InRange : (t : ℤ) → InRange (clamp t)
unfolding clamp
clamp-InRange t = ground arith

pub add-InRange : (t : TimePoint) (d : Duration) → InRange t → InRange d → InRange (add t d)
add-InRange t d ht hd = rw ((checked_add-clamp t d ht hd).1) (clamp-InRange (t +ℤ d))
