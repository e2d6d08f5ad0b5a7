-- ===== src/Radius/BruteForce.antt =====
-- internal/radius/ratelimit.go: `BruteForceGuard`. A guard with no counter (`g == nil ||
-- g.counter == nil`) is `none`; it blocks nobody. The methods return no error but that of a nil
-- guard, which they do not raise.
pub mod Streak
use Prim.Native.String.{◌++◌}
use isp.Common.{ℕ, ◌*◌, String, Bool, true, false, Option, none, some, leb, if◌then◌else◌}
use isp.Common.Clock.{Time, Duration, minute}
use isp.Localcache.Counter
use isp.Localcache.Counter.{Counter, incr, expire}

abbrev pub max_failed_attempts : ℕ
max_failed_attempts = 10

abbrev pub lockout_duration : Duration
lockout_duration = 15 * minute

abbrev pub Guard : Type 0
Guard = Option Counter

-- internal/radius/handlers.go
abbrev pub brute_force_key : String → String
brute_force_key username = "bf_attempts:" ++ username

-- (blocked, hasFailures)
unfoldable pub check : Time → String → Guard → Bool × Bool
check now username none = (false, false)
check now username (some c) = elim (Counter.get now (brute_force_key username) c) [
  | none ↦ (false, false)
  | some count ↦ if leb max_failed_attempts count then (true, true) else (false, true)
]

pub is_blocked : Time → String → Guard → Bool
is_blocked now username g = (check now username g).0

unfoldable pub record_failure : Time → String → Guard → Guard
record_failure now username none = none
record_failure now username (some c) =
    let key = brute_force_key username in some (expire now key lockout_duration (incr now key c).0)

unfoldable pub reset : String → Guard → Guard
reset username none = none
reset username (some c) = some (Counter.reset (brute_force_key username) c)
