-- ===== src/TimeTraits.antt =====
-- include/yamail/resource_pool/time_traits.hpp over `steady_clock`, whose ticks are `int64_t`.
-- The clock's reading `now()` is an argument of every operation that takes it.
pub mod Saturation
use resource_pool.Prelude.{◌≡◌, Option, none, some, if◌then◌else◌, Bool, ◌&&◌}
use resource_pool.Prelude.Int.{ℤ, pos, negsuc, ◌+ℤ◌, ◌-ℤ◌, neg_ℤ, ltb_ℤ, leb_ℤ, ◌≤ℤ◌}

abbrev pub TimePoint : Type 0
TimePoint = ℤ

abbrev pub Duration : Type 0
Duration = ℤ

-- `time_point::max()` and `duration::max()`, `time_point::min()`, and `time_point()`.
abbrev pub time_max : TimePoint
time_max = pos 9223372036854775807

abbrev pub time_min : TimePoint
time_min = negsuc 9223372036854775807

abbrev pub epoch : TimePoint
epoch = pos 0

-- The values of an `int64_t`.
abbrev pub InRange : ℤ → Type 0
InRange t = (time_min ≤ℤ t) × (t ≤ℤ time_max)

unfoldable pub add : TimePoint → Duration → TimePoint
add t d =
    if leb_ℤ epoch t
    then (if ltb_ℤ (time_max -ℤ t) d then time_max else t +ℤ d)
    else (if ltb_ℤ d (neg_ℤ (t -ℤ time_min)) then time_min else t +ℤ d)

-- The same function with every `int64_t` result checked: `none` is a signed overflow, which C++
-- leaves undefined.
infixl 5 ◌>>=◌
abbrev ◌>>=◌ : {A B : Type 0} → Option A → (A → Option B) → Option B
none >>= f = none
some a >>= f = f a

unfoldable pub narrow : ℤ → Option ℤ
narrow t = if leb_ℤ time_min t && leb_ℤ t time_max then some t else none

upper : TimePoint → Duration → Option TimePoint
upper t d = do
  room ← narrow (time_max -ℤ t)
  if ltb_ℤ room d then some time_max else narrow (t +ℤ d)

lower : TimePoint → Duration → Option TimePoint
lower t d = do
  above ← narrow (t -ℤ time_min)
  room ← narrow (neg_ℤ above)
  if ltb_ℤ d room then some time_min else narrow (t +ℤ d)

unfoldable pub checked_add : TimePoint → Duration → Option TimePoint
unfolding upper lower narrow
checked_add t d = if leb_ℤ epoch t then upper t d else lower t d
