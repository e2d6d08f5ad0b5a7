-- ===== src/Hotspot/Limiter.antt =====
-- internal/hotspot/limiter.go: `Limiter`, a fixed window of attempts for each client. The counter
-- that no constructor set (`l == nil || l.counter == nil`) is `none`, and `Allow` then fails.
pub mod Window
use Prim.Native.String.{◌++◌}
use isp.Common.{ℕ, ◌*◌, String, Bool, Option, none, some, ◌==◌, leb, if◌then◌else◌}
use isp.Common.Clock.{Time, Duration, minute}
use isp.Localcache.Counter
use isp.Localcache.Counter.{Counter, incr, expire, new_counter}

abbrev pub default_attempt_limit : ℕ
default_attempt_limit = 10

abbrev pub default_attempt_window : Duration
default_attempt_window = 15 * minute

pub record Limiter : Type 0 where
  pub counter : Option Counter
  pub limit : ℕ
  pub window : Duration

abbrev pub new_limiter : Limiter
new_limiter = record {
  counter = some new_counter;
  limit = default_attempt_limit;
  window = default_attempt_window;
}

pub set_limit : ℕ → Duration → Limiter → Limiter
set_limit limit window l = record l { limit = limit; window = window }

abbrev pub attempts_key : String → String
attempts_key key = "hotspot:attempts:" ++ key

-- The counter after one attempt, and the count that it saw: the expiry is armed on the first
-- attempt of a window only.
unfoldable pub count_attempt : Time → Duration → String → Counter → Counter × ℕ
count_attempt now window key c =
    let (c', count) = incr now key c in (if count == 1 then expire now key window c' else c', count)

-- `none` is the error "attempt limiter is not configured".
unfoldable pub allow : Time → String → Limiter → Limiter × Option Bool
allow now key l = elim l.counter [
  | none ↦ (l, none)
  | some c ↦
      let (c', count) = count_attempt now l.window (attempts_key key) c in
      (record l { counter = some c' }, some (leb count l.limit))
]
