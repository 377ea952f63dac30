-- ===== src/Transforms.antt =====
-- roslibrust_transforms/src/lib.rs: the times and messages of transforms. A floating-point number is
-- a value of a type that stands for `f64`.
pub mod Stamps
mod Tests
pub mod Waiting
use roslibrust.Base.{
  ℕ, ◌+◌, ◌-◌, ◌*◌, ◌/◌, ◌%◌, ◌^◌, Bool, true, false, ltb, if◌then◌else◌, Text, Result, ok, err,
  panic, diverge, ◌>>=◌,
}
use roslibrust.Codegen.IntegralTypes.{Time, ℤ, pos, negsuc, nanos_per_sec, i32_end}

-- A reason for no result: there is none.
pub data NoError : Type 0 where

-- `n as i32` of a number: the lowest 32 bits.
abbrev pub as_i32 : ℕ → ℤ
as_i32 n = let low = n % (2 ^ 32) in if ltb low i32_end then pos low else negsuc (2 ^ 32 - 1 - low)

-- `n as u128` and `n as u32` of an `i32`.
abbrev pub as_unsigned : ℕ → ℤ → ℕ
as_unsigned bits (pos n) = n
as_unsigned bits (negsuc n) = 2 ^ bits - 1 - n

-- `Timestamp`: nanoseconds in a `u128`, where an overflow panics, as it does with overflow checks on.
unfoldable pub from_ros_time : ℤ → ℕ → Result NoError ℕ
from_ros_time sec nsec =
    let t = as_unsigned 128 sec * nanos_per_sec + nsec in if ltb t (2 ^ 128) then ok t else panic

unfoldable pub as_ros_time : ℕ → ℤ × ℕ
as_ros_time t = (as_i32 (t / nanos_per_sec), t % nanos_per_sec)

module _ (F64 : Type 0) where
  pub record Vector3 : Type 0 where
    pub x : F64
    pub y : F64
    pub z : F64

  pub record Quaternion : Type 0 where
    pub w : F64
    pub x : F64
    pub y : F64
    pub z : F64

  pub record Transform : Type 0 where
    pub translation : Vector3
    pub rotation : Quaternion
    pub timestamp : ℕ
    pub parent : Text
    pub child : Text

  pub record Header : Type 0 where
    pub seq : ℕ
    pub stamp : Time
    pub frame_id : Text

  pub record TransformMessage : Type 0 where
    pub translation : Vector3
    pub rotation : Quaternion

  pub record Ros1TransformStamped : Type 0 where
    pub header : Header
    pub child_frame_id : Text
    pub transform : TransformMessage

  -- `static_timestamp` is that of the crate transforms.
  unfoldable pub into_transform : ℕ → Ros1TransformStamped → Bool → Result NoError Transform
  unfolding from_ros_time
  into_transform static_timestamp message is_static = do
    timestamp ←
        if is_static
        then ok static_timestamp
        else from_ros_time message.header.stamp.secs (as_unsigned 32 message.header.stamp.nsecs)
    ok (record {
      translation = message.transform.translation;
      rotation = message.transform.rotation;
      timestamp = timestamp;
      parent = message.header.frame_id;
      child = message.child_frame_id;
    })

  unfoldable pub from_transform : Transform → Result NoError Ros1TransformStamped
  unfolding as_ros_time
  from_transform transform =
      let (secs, nsecs) = as_ros_time transform.timestamp in
      if ltb (i32_end - 1) nsecs
      then panic
      else ok (record {
        header = record {
          seq = 0;
          stamp = record { secs = secs; nsecs = pos nsecs };
          frame_id = transform.parent;
        };
        child_frame_id = transform.child;
        transform = record { translation = transform.translation; rotation = transform.rotation };
      })
