-- ===== src/Codegen/IntegralTypes/Tests.antt =====
-- Conversions of times at concrete inputs.
use roslibrust.Base.{◌≡◌, refl, ok}
use roslibrust.Codegen.IntegralTypes.{pos, StdDuration, since, system_time_of_time}

abbrev moment : StdDuration
moment = record { secs = 1700000000; nanos = 999999999 }

-- The greatest time of the unit test.
greatest :
    system_time_of_time (record { secs = pos 2147483647; nsecs = pos 2147483647 })
    ≡ ok (since (record { secs = 2147483649; nanos = 147483647 }))
unfolding system_time_of_time
greatest = refl
