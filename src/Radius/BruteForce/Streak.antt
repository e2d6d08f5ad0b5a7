-- ===== src/Radius/BruteForce/Streak.antt =====
-- ratelimit.go: the guard keeps, for each user, the length of the current streak of failures.
use text.Mathlib.TextLemmas.{append_cancel_left}
use isp.Common.{
  ℕ, ◌+◌, ◌≤◌, ◌<◌, ◌≡◌, refl, ◌∙◌, ◌≢◌, String, str_eq, eq_iff, Bool, Option, none, some, List, [],
  ◌∷◌, inl, inr, arith, ltb, leb, if◌then◌else◌, Bool-cases,
}
use isp.Common.Clock.{Time, Duration}
use isp.Common.Maps.{lookup, insert, IsMap, lookup-insert, retain-IsMap, erase-IsMap}
use isp.Localcache.Counter.{Counter, CounterEntry, live_or_fresh, get, incr, expire, sweep}
use isp.Localcache.Counter.Reads.{shown, get-reset, get-sweep, incr-IsMap, expire-IsMap}
use isp.Localcache.Counter
use isp.Radius.BruteForce.{
  Guard, check, is_blocked, record_failure, reset, brute_force_key, max_failed_attempts,
  lockout_duration,
}

-- What happens to the guard: a failed authentication, a successful one, a tick of the sweep.
pub data Event : Type 0 where
  failure : Time → String → Event
  success : String → Event
  tick : Time → Event

pub after : Guard → List Event → Guard
after g [] = g
after g (failure t u ∷ es) = after (record_failure t u g) es
after g (success u ∷ es) = after (reset u g) es
after none (tick t ∷ es) = after none es
after (some c) (tick t ∷ es) = after (some (sweep t c)) es

-- The specification: one user's streak, with the instant at which it lapses.
abbrev pub Streak : Type 0
Streak = Option (ℕ × Time)

abbrev pub streak_at : Time → Streak → ℕ
streak_at now none = 0
streak_at now (some (n, lapse)) = if ltb lapse now then 0 else n

abbrev pub streak_after : String → Streak → List Event → Streak
streak_after u s [] = s
streak_after u s (failure t j ∷ es) =
    streak_after u (if str_eq j u then some (streak_at t s + 1, t + lockout_duration) else s) es
streak_after u s (success j ∷ es) = streak_after u (if str_eq j u then none else s) es
streak_after u s (tick t ∷ es) = streak_after u s es

-- The events happen in the order of time, after the first instant and before the last.
abbrev pub Ordered : Time → List Event → Time → Type 0
Ordered a [] b = a ≤ b
Ordered a (failure t u ∷ es) b = (a ≤ t) × Ordered t es b
Ordered a (success u ∷ es) b = Ordered a es b
Ordered a (tick t ∷ es) b = (a ≤ t) × Ordered t es b

get-record :
    (t now : Time) (k j : String) (d : Duration) (c : Counter)
    → 0 < t
    → get now j (expire t k d (incr t k c).0) ≡ (
        if str_eq k j
        then if ltb (t + d) now then none else some (shown (get t k c) + 1)
        else get now j c)
unfolding get incr expire
get-record t now k j d c h =
    let e = record (live_or_fresh t (lookup k c)) {
      count = (live_or_fresh t (lookup k c)).count + 1;
    } in
    ground (
      arith,
      eq_iff k j,
      eq_iff k k,
      lookup-insert k j e c,
      lookup-insert k k e c,
      lookup-insert k j (record e { expires = t + d }) (insert k e c),
    )

abbrev as_read : Time → Streak → Option ℕ
as_read now none = none
as_read now (some (n, lapse)) = if ltb lapse now then none else some n

-- The counter shows at every later instant what the streak says.
abbrev Shows : String → Time → Counter → Streak → Type 0
Shows u a c s = (now : Time) → a ≤ now → get now (brute_force_key u) c ≡ as_read now s

brute_force_key_ne : (j k : String) → j ≢ k → brute_force_key j ≢ brute_force_key k
brute_force_key_ne j k h e = h (append_cancel_left "bf_attempts:" j k e)

-- One step of the refinement, for each event.
failure-Shows :
    (u j : String) (a t : Time) (c : Counter) (s : Streak)
    → 0 < a
    → a ≤ t
    → Shows u a c s
    → Shows u t
        (expire t (brute_force_key j) lockout_duration (incr t (brute_force_key j) c).0)
        (if str_eq j u then some (streak_at t s + 1, t + lockout_duration) else s)
failure-Shows u j a t c s pos le sh now late = elim (Bool-cases (str_eq j u)) [
  | inl same ↦ rw ((eq_iff j u).0 same) (
      ground (
        arith,
        eq_iff u u,
        eq_iff (brute_force_key u) (brute_force_key u),
        get-record t now (brute_force_key u) (brute_force_key u) lockout_duration c,
        sh t le,
      ))
  | inr other ↦
      let ne = brute_force_key_ne j u (λ p. cc ((eq_iff j u).1 p)) in
      rw other (
        ground (
          arith,
          eq_iff (brute_force_key j) (brute_force_key u),
          ne,
          get-record t now (brute_force_key j) (brute_force_key u) lockout_duration c,
          sh now (omega arith),
        ))
]

success-Shows :
    (u j : String) (a : Time) (c : Counter) (s : Streak)
    → Shows u a c s
    → Shows u a (Counter.reset (brute_force_key j) c) (if str_eq j u then none else s)
success-Shows u j a c s sh now late = elim (Bool-cases (str_eq j u)) [
  | inl same ↦ rw ((eq_iff j u).0 same) (
      ground (
        arith,
        eq_iff u u,
        eq_iff (brute_force_key u) (brute_force_key u),
        get-reset now (brute_force_key u) (brute_force_key u) c,
      ))
  | inr other ↦
      let ne = brute_force_key_ne j u (λ p. cc ((eq_iff j u).1 p)) in
      rw other (
        ground (
          arith,
          eq_iff (brute_force_key j) (brute_force_key u),
          ne,
          get-reset now (brute_force_key j) (brute_force_key u) c,
          sh now late,
        ))
]

tick-Shows :
    (u : String) (a t : Time) (c : Counter) (s : Streak)
    → IsMap c
    → a ≤ t
    → Shows u a c s
    → Shows u t (sweep t c) s
tick-Shows u a t c s m le sh now late =
    ((get-sweep t now (brute_force_key u) c late m).0) ∙ sh now (omega arith)

-- The user is blocked exactly when the streak in force has reached the limit.
abbrev pub is_blocking : Time → Streak → Bool
is_blocking now s = leb max_failed_attempts (streak_at now s)

check-Shows :
    (u : String) (a : Time) (c : Counter) (s : Streak)
    → Shows u a c s
    → is_blocked a u (some c) ≡ is_blocking a s
unfolding is_blocked check
check-Shows u a c s sh =
    elim s as (λ s. Shows u a c s → is_blocked a u (some c) ≡ is_blocking a s) [
      | none ↦ λ sh. ground (arith, sh a)
      | some (n, lapse) ↦ λ sh. ground (arith, sh a)
    ]
      sh

after-Shows :
    (u : String) (a b : Time) (es : List Event) (c : Counter) (s : Streak)
    → 0 < a
    → IsMap c
    → Ordered a es b
    → Shows u a c s
    → is_blocked b u (after (some c) es) ≡ is_blocking b (streak_after u s es)
unfolding after record_failure reset
after-Shows u a b [] c s pos m o sh = check-Shows u b c s (λ now late. sh now (omega arith))
after-Shows u a b (failure t j ∷ es) c s pos m o sh =
    after-Shows u t b es _ _ (omega arith)
      (expire-IsMap t (brute_force_key j) lockout_duration _ (incr-IsMap t (brute_force_key j) c m))
      o.1 (failure-Shows u j a t c s pos o.0 sh)
after-Shows u a b (success j ∷ es) c s pos m o sh =
    after-Shows u a b es _ _ pos (unfold Counter.reset in erase-IsMap (brute_force_key j) c m) o
      (success-Shows u j a c s sh)
after-Shows u a b (tick t ∷ es) c s pos m o sh =
    after-Shows u t b es _ s (omega arith) (unfold sweep in retain-IsMap _ c m) o.1
      (tick-Shows u a t c s m o.0 sh)

-- After any interleaving of failures and successes of any users with sweeps, in the order of time,
-- a fresh guard blocks a user exactly when the user's own streak of failures, each within the
-- lockout of the one before and none followed by a success, is in force and has reached the limit.
pub blocked-refines-streak :
    (u : String) (a b : Time) (es : List Event)
    → 0 < a
    → Ordered a es b
    → is_blocked b u (after (some []) es) ≡ is_blocking b (streak_after u none es)
blocked-refines-streak u a b es pos o =
    after-Shows u a b es [] none pos tt o (λ now late. unfold get in refl)
