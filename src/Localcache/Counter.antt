-- ===== src/Localcache/Counter.antt =====
-- internal/localcache/counter.go: `Counter`, the fixed-window counter. Each method holds the mutex
-- for its whole body, so a method is one function from the map to the new map, at the instant that
-- `time.Now()` reads. A count is a number without bound: 2^63 increments of one key do not happen.
pub mod Reads
use isp.Common.{
  ℕ, ◌+◌, ◌-◌, String, Bool, not, ◌&&◌, ◌||◌, Option, none, some, List, [], ltb, if◌then◌else◌,
}
use isp.Common.Clock.{Time, Duration, second, is_zero}
use isp.Common.Maps.{lookup, insert, erase, retain, count_if}

pub record CounterEntry : Type 0 where
  pub count : ℕ
  pub expires : Time

abbrev pub Counter : Type 0
Counter = List (String × CounterEntry)

abbrev pub new_counter : Counter
new_counter = []

-- `!e.expires.IsZero() && now.After(e.expires)`
abbrev pub has_expired : Time → CounterEntry → Bool
has_expired now e = not (is_zero e.expires) && ltb e.expires now

-- The entry that `Incr` counts up: the live one, or a fresh one.
abbrev pub live_or_fresh : Time → Option CounterEntry → CounterEntry
live_or_fresh now none = record { count = 0; expires = 0 }
live_or_fresh now (some e) = if has_expired now e then record { count = 0; expires = 0 } else e

unfoldable pub incr : Time → String → Counter → Counter × ℕ
incr now key c =
    let e = live_or_fresh now (lookup key c) in
    (insert key (record e { count = e.count + 1 }) c, e.count + 1)

unfoldable pub expire : Time → String → Duration → Counter → Counter
expire now key ttl c = elim (lookup key c) [
  | none ↦ c
  | some e ↦ insert key (record e { expires = now + ttl }) c
]

-- `none` is the pair `(0, false)`.
unfoldable pub get : Time → String → Counter → Option ℕ
get now key c = elim (lookup key c) [
  | none ↦ none
  | some e ↦ if has_expired now e then none else some e.count
]

unfoldable pub reset : String → Counter → Counter
reset key c = erase key c

-- `e.expires.IsZero() || now.Before(e.expires)`
abbrev pub is_counted : Time → CounterEntry → Bool
is_counted now e = is_zero e.expires || ltb now e.expires

unfoldable pub len : Time → Counter → ℕ
len now c = count_if (is_counted now) c

-- A time before one second after Go's zero time is out of reach, so `-` is exact.
unfoldable pub expire_now : Time → String → Counter → Counter
expire_now now key c = elim (lookup key c) [
  | none ↦ c
  | some e ↦ insert key (record e { expires = now - second }) c
]

unfoldable pub ttl : Time → String → Counter → Duration
ttl now key c = elim (lookup key c) [
  | none ↦ 0
  | some e ↦ if is_zero e.expires then 0 else if ltb now e.expires then e.expires - now else 0
]

-- One tick of the background sweep.
unfoldable pub sweep : Time → Counter → Counter
sweep now c = retain (λ e. not (has_expired now e)) c
