-- ===== src/Codegen/IntegralTypes/Conversions.antt =====
-- What the conversions of integral_types.rs keep and refuse.
use roslibrust.Base.{
  ℕ, ◌+◌, ◌*◌, ◌/◌, ◌%◌, ◌^◌, ◌<◌, ◌≤◌, ◌≡◌, refl, ok, err, ◌>>=◌, arith, lt→ltb, ge→ltb,
}
use roslibrust.Codegen.IntegralTypes.{
  ℤ, pos, negsuc, StdDuration, since, until, before_epoch, bad_secs, bad_nsecs, nanos_per_sec,
  i32_end, u64_end, time_of_system_time, system_time_of_time, duration_of_std, std_of_duration,
}

abbrev pub nanoseconds : StdDuration → ℕ
nanoseconds d = d.secs * nanos_per_sec + d.nanos

-- A system time since the epoch is taken to ROS and back unchanged if its seconds fit an `i32`, and
-- refused if they do not; a time before the epoch is always refused.
pub system_time_roundtrip :
    (d : StdDuration)
    → d.nanos < nanos_per_sec
    → (d.secs < i32_end → (time_of_system_time (since d) >>= system_time_of_time) ≡ ok (since d))
      × (i32_end ≤ d.secs → time_of_system_time (since d) ≡ err bad_secs)
      × (time_of_system_time (until d) ≡ err before_epoch)
unfolding time_of_system_time system_time_of_time
system_time_roundtrip d h =
    (λ fits. ground (arith, h, fits), λ large. rw (ge→ltb d.secs i32_end large) refl, refl)

-- A standard duration is taken to ROS and back unchanged if its seconds fit an `i32`, and refused
-- if they do not.
pub duration_roundtrip :
    (d : StdDuration)
    → d.nanos < nanos_per_sec
    → (d.secs < i32_end → (duration_of_std d >>= std_of_duration) ≡ ok d)
      × (i32_end ≤ d.secs → duration_of_std d ≡ err bad_secs)
unfolding duration_of_std std_of_duration
duration_roundtrip d h =
    (λ fits. ground (arith, h, fits), λ large. rw (ge→ltb d.secs i32_end large) refl)

-- A ROS time with no negative part is converted to the system time of as many nanoseconds, whatever
-- its nanoseconds are, and one with a negative part is refused.
pub system_time_of_time_keeps :
    (s n : ℕ) (z : ℤ)
    → s < i32_end
    → n < i32_end
    → ((d : StdDuration) × (system_time_of_time (record { secs = pos s; nsecs = pos n })
          ≡ ok (since d))
        × (nanoseconds d ≡ s * nanos_per_sec + n)
        × (d.nanos < nanos_per_sec))
      × (system_time_of_time (record { secs = negsuc s; nsecs = z }) ≡ err bad_secs)
      × (system_time_of_time (record { secs = pos s; nsecs = negsuc n }) ≡ err bad_nsecs)
unfolding system_time_of_time
system_time_of_time_keeps s n z hs hn = (
  (
    record { secs = s + n / nanos_per_sec; nanos = n % nanos_per_sec },
    converted,
    omega arith,
    omega arith,
  ),
  refl,
  refl,
)
  where
    same : n % 2 ^ 32 ≡ n
    same = omega arith

    converted :
        system_time_of_time (record { secs = pos s; nsecs = pos n })
        ≡ ok (since (record { secs = s + n / nanos_per_sec; nanos = n % nanos_per_sec }))
    converted = rw same (rw (lt→ltb (s + n / nanos_per_sec) u64_end (omega arith)) refl)
