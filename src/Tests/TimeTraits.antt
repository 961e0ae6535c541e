-- ===== src/Tests/TimeTraits.antt =====
-- time_traits.hpp at the ends of the clock's range.
use resource_pool.Prelude.{◌≡◌, refl, some, arith}
use resource_pool.Prelude.Int.{pos, negsuc, ◌+ℤ◌, ◌-ℤ◌}
use resource_pool.TimeTraits.{time_max, time_min, add, checked_add}
use resource_pool.TimeTraits.Saturation.{clamp, checked_add-clamp}

add_saturates_above : add (pos 5) time_max ≡ time_max
unfolding add ◌-ℤ◌
add_saturates_above = refl

add_saturates_below : add (negsuc 5) time_min ≡ time_min
unfolding add ◌-ℤ◌
add_saturates_below = refl

checked_add-clamp_example :
    (checked_add (pos 5) time_max ≡ some (clamp (pos 5 +ℤ time_max)))
    × (add (pos 5) time_max ≡ clamp (pos 5 +ℤ time_max))
checked_add-clamp_example = checked_add-clamp (pos 5) time_max (omega arith) (omega arith)
