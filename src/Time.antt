-- ===== src/Time.antt =====
-- Go's `time.Time` and `time.Duration`, as the code uses them. An instant is the number of
-- nanoseconds since Go's zero time (the first of January of year 1), which is 0; instants before it
-- are not represented. `Unix()` is counted from the zero time too: the code only stores, compares
-- and converts back such seconds, so the fixed shift to 1970 cancels.
use agentcube.Prelude.{
  if◌then◌else◌, ℕ, suc, ◌+◌, ◌-◌, ◌*◌, ◌/◌, ◌≤◌, ◌<◌, Bool, ltb, eqb, arith, ℤ,
}
pub use agentcube.Prelude.{pos, negsuc}

abbrev pub Time : Type 0
Time = ℕ

-- A duration in nanoseconds.
abbrev pub Duration : Type 0
Duration = ℤ

abbrev pub second : ℕ
second = 1_000_000_000

abbrev pub minute : ℕ
minute = 60_000_000_000

abbrev pub is_zero : Time → Bool
is_zero t = eqb t 0

-- `t.Add(d)`
abbrev pub add : Time → Duration → Time
add t (pos n) = t + n
add t (negsuc n) = t - suc n

-- `t.Before(u)`
abbrev pub before : Time → Time → Bool
before = ltb

-- `t.Unix()`, and `time.Unix(s, 0)`.
unfoldable pub unix : Time → ℕ
unix t = t / 1_000_000_000

unfoldable pub from_unix : ℕ → Time
from_unix s = s * 1_000_000_000

pub unix_mono : (t u : Time) → t ≤ u → unix t ≤ unix u
unfolding unix
unix_mono t u h = omega arith

-- Seconds are rounded down, by less than a second.
pub from_unix-unix : (t : Time) → (from_unix (unix t) ≤ t) × (t < from_unix (unix t) + second)
unfolding unix from_unix
from_unix-unix t = omega arith

-- The seconds from Go's zero time to the first of January of 1970.
abbrev pub posix_offset : ℕ
posix_offset = 62_135_596_800

-- `time.Unix(s, 0)` of seconds since 1970. The sum with the offset is an `int64` that wraps around;
-- an instant before the zero time counts as the zero time.
unfoldable pub from_posix : ℤ → Time
from_posix (pos s) =
    if ltb (s + posix_offset) 9_223_372_036_854_775_808 then (s + posix_offset) * second else 0
from_posix (negsuc s) = (posix_offset - suc s) * second
