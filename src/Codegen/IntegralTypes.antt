-- ===== src/Codegen/IntegralTypes.antt =====
-- roslibrust_codegen/src/integral_types.rs: `Time` and `Duration` and their conversions with
-- std::time.
pub mod Conversions
mod Tests
use roslibrust.Base.{
  ℕ, ◌+◌, ◌*◌, ◌/◌, ◌%◌, ◌^◌, ◌<◌, Bool, true, false, ltb, if◌then◌else◌, Result, ok, err, panic,
  diverge, ◌>>=◌,
}

-- An `i32`.
pub data ℤ : Type 0 where
  pos : ℕ → ℤ
  negsuc : ℕ → ℤ

pub record Time : Type 0 where
  pub secs : ℤ
  pub nsecs : ℤ

pub record Duration : Type 0 where
  pub sec : ℤ
  pub nsec : ℤ

-- `std::time::Duration`; its nanoseconds are less than `nanos_per_sec`.
pub record StdDuration : Type 0 where
  pub secs : ℕ
  pub nanos : ℕ

-- `std::time::SystemTime`, as the time since or until `UNIX_EPOCH`.
pub data SystemTime : Type 0 where
  since until : StdDuration → SystemTime

pub data TimeError : Type 0 where
  before_epoch bad_secs bad_nsecs : TimeError

abbrev pub nanos_per_sec : ℕ
nanos_per_sec = 1000000000

abbrev pub i32_end : ℕ
i32_end = 2 ^ 31

abbrev pub u64_end : ℕ
u64_end = 2 ^ 64

-- `Duration::new`: whole seconds are carried, and an overflow of the seconds panics.
abbrev new_duration : ℕ → ℕ → Result TimeError StdDuration
new_duration secs nanos =
    if ltb (secs + nanos / nanos_per_sec) u64_end
    then ok (record { secs = secs + nanos / nanos_per_sec; nanos = nanos % nanos_per_sec })
    else panic

-- `i32::try_from` on an unsigned number.
abbrev to_i32 : ℕ → TimeError → Result TimeError ℤ
to_i32 n e = if ltb n i32_end then ok (pos n) else err e

-- `u64::try_from` and `u32::try_from` on an `i32`.
abbrev from_i32 : ℤ → TimeError → Result TimeError ℕ
from_i32 (pos n) e = ok n
from_i32 (negsuc n) e = err e

-- `TryFrom<SystemTime> for Time`
unfoldable pub time_of_system_time : SystemTime → Result TimeError Time
time_of_system_time (since delta) = do
  downcast_secs ← to_i32 delta.secs bad_secs
  downcast_nanos ← to_i32 delta.nanos bad_nsecs
  ok (record { secs = downcast_secs; nsecs = downcast_nanos })
time_of_system_time (until delta) = err before_epoch

-- `TryFrom<Time> for SystemTime`; `nsecs as u32` keeps a number that was an `i32`.
unfoldable pub system_time_of_time : Time → Result TimeError SystemTime
system_time_of_time val = do
  secs ← from_i32 val.secs bad_secs
  nsecs ← from_i32 val.nsecs bad_nsecs
  duration ← new_duration secs (nsecs % 2 ^ 32)
  ok (since duration)

-- `TryFrom<std::time::Duration> for Duration`
unfoldable pub duration_of_std : StdDuration → Result TimeError Duration
duration_of_std val = do
  downcast_sec ← to_i32 val.secs bad_secs
  downcast_nsec ← to_i32 val.nanos bad_nsecs
  ok (record { sec = downcast_sec; nsec = downcast_nsec })

-- `TryFrom<Duration> for std::time::Duration`
unfoldable pub std_of_duration : Duration → Result TimeError StdDuration
std_of_duration val = do
  upcast_sec ← from_i32 val.sec bad_secs
  upcast_nsec ← from_i32 val.nsec bad_nsecs
  new_duration upcast_sec upcast_nsec
