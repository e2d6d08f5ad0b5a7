-- ===== src/Common/Clock.antt =====
-- Instants and durations, in nanoseconds. An instant counts from Go's zero time (year 1), so the
-- zero `time.Time` is 0, and a duration here is one that is not negative.
use Prim.Native.Nat.{ℕ, ◌*◌}
use mathlib.Core.Bool.{Bool}
use isp.Common.Tests.{◌==◌}

abbrev pub Time : Type 0
Time = ℕ

abbrev pub Duration : Type 0
Duration = ℕ

abbrev pub second : Duration
second = 1000000000

abbrev pub minute : Duration
minute = 60 * second

abbrev pub hour : Duration
hour = 60 * minute

abbrev pub day : Duration
day = 24 * hour

-- `t.IsZero()`
abbrev pub is_zero : Time → Bool
is_zero t = t == 0
