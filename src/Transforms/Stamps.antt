-- ===== src/Transforms/Stamps.antt =====
-- Which times a transform keeps on its way through a message.
use roslibrust.Base.{
  ℕ, ◌+◌, ◌-◌, ◌*◌, ◌/◌, ◌%◌, ◌^◌, ◌<◌, ◌≤◌, ◌≡◌, refl, ap, false, lt→ltb, ge→ltb, ok, panic, ◌>>=◌,
  arith,
}
use roslibrust.Codegen.IntegralTypes.{pos, negsuc, nanos_per_sec, i32_end}
use roslibrust.Transforms.{
  as_i32, from_ros_time, as_ros_time, Transform, into_transform, from_transform,
}

as_i32-early : (n : ℕ) → n < i32_end → as_i32 n ≡ pos n
as_i32-early n h = rw (lt→ltb (n % (2 ^ 32)) i32_end (omega arith)) (ap pos (omega arith))

as_i32-late : (n : ℕ) → i32_end ≤ n → n < 2 ^ 32 → as_i32 n ≡ negsuc (2 ^ 32 - 1 - n)
as_i32-late n h k =
    rw (ge→ltb (n % (2 ^ 32)) i32_end (omega arith))
      (ap (λ l. negsuc (2 ^ 32 - 1 - l)) (omega arith))

-- A time goes through the seconds and nanoseconds of a message.
stamp-early :
    (t : ℕ)
    → t < i32_end * nanos_per_sec
    → from_ros_time (as_i32 (t / nanos_per_sec)) (t % nanos_per_sec) ≡ ok t
unfolding from_ros_time
stamp-early t h = rw (as_i32-early (t / nanos_per_sec) (omega arith)) (
    rw (lt→ltb (t / nanos_per_sec * nanos_per_sec + t % nanos_per_sec) (2 ^ 128) (omega arith))
      (ap ok (omega arith)))

stamp-late :
    (t : ℕ)
    → i32_end * nanos_per_sec ≤ t
    → t < 2 ^ 32 * nanos_per_sec
    → from_ros_time (as_i32 (t / nanos_per_sec)) (t % nanos_per_sec) ≡ panic
unfolding from_ros_time
stamp-late t h k = rw (as_i32-late (t / nanos_per_sec) (omega arith) (omega arith)) (
    rw
      (ge→ltb ((2 ^ 128 - 1 - (2 ^ 32 - 1 - t / nanos_per_sec)) * nanos_per_sec + t % nanos_per_sec)
        (2 ^ 128) (omega arith))
      refl)

module _ (F64 : Type 0) (static_timestamp : ℕ) where
  -- A transform of a time before the year 2038 is read back unchanged from its message.
  pub into_transform-from_transform :
      (transform : Transform F64)
      → transform.timestamp < i32_end * nanos_per_sec
      → (from_transform F64 transform >>= λ m. into_transform F64 static_timestamp m false)
        ≡ ok transform
  unfolding from_transform into_transform as_ros_time
  into_transform-from_transform transform early =
      rw (ge→ltb (i32_end - 1) (transform.timestamp % nanos_per_sec) (omega arith))
        (rw (stamp-early transform.timestamp early) refl)

  -- Of a time from then on, for as long again, the message has negative seconds, and its reader
  -- panics.
  pub into_transform-late :
      (transform : Transform F64)
      → i32_end * nanos_per_sec ≤ transform.timestamp
      → transform.timestamp < 2 ^ 32 * nanos_per_sec
      → (from_transform F64 transform >>= λ m. into_transform F64 static_timestamp m false) ≡ panic
  unfolding from_transform into_transform as_ros_time
  into_transform-late transform late bound =
      rw (ge→ltb (i32_end - 1) (transform.timestamp % nanos_per_sec) (omega arith))
        (rw (stamp-late transform.timestamp late bound) refl)
