-- ===== src/Localcache/Counter/Reads.antt =====
-- counter.go: what each method does to what the others observe.
use isp.Common.{
  ℕ, ◌+◌, ◌-◌, ◌≤◌, ◌<◌, ◌≡◌, not, String, str_eq, eq_iff, Option, none, some, inl, inr, arith,
  if◌then◌else◌, Option-cases,
}
use isp.Common.Clock.{Time, Duration, second}
use isp.Common.Maps.{
  lookup, IsMap, lookup-insert, lookup-erase, insert-IsMap, lookup-retain, count_if-retain,
}
use isp.Localcache.Counter.{
  Counter, has_expired, live_or_fresh, is_counted, incr, expire, get, reset, len, expire_now, sweep,
}

-- The count that a read shows, and 0 where it shows none.
abbrev pub shown : Option ℕ → ℕ
shown none = 0
shown (some n) = n

-- An increment returns one more than a read at that instant shows, shows it from then on as long
-- as the entry lives, and touches no other key.
pub get-incr :
    (now : Time) (k j : String) (c : Counter)
    → ((incr now k c).1 ≡ shown (get now k c) + 1)
      × (get now j (incr now k c).0
          ≡ (if str_eq k j then some (shown (get now k c) + 1) else get now j c))
unfolding incr get
get-incr now k j c = ground (
  arith,
  eq_iff k j,
  lookup-insert k j
      (record (live_or_fresh now (lookup k c)) {
        count = (live_or_fresh now (lookup k c)).count + 1;
      })
      c,
)

-- Arming a key's expiry shows the same count up to and at the deadline, and nothing past it.
pub get-expire :
    (t now : Time) (k j : String) (d : Duration) (c : Counter)
    → 0 < t
    → get now j (expire t k d c) ≡ (
        if str_eq k j
        then elim (lookup k c) [
          | none ↦ none
          | some e ↦ if has_expired now (record e { expires = t + d }) then none else some e.count
        ]
        else get now j c)
unfolding expire get
get-expire t now k j d c h = elim (Option-cases (lookup k c)) [
  | inl e ↦ ground (arith, eq_iff k j)
  | inr (v, e) ↦ ground (arith, eq_iff k j, lookup-insert k j (record v { expires = t + d }) c)
]

-- A reset forgets the key and no other.
pub get-reset :
    (now : Time) (k j : String) (c : Counter)
    → get now j (reset k c) ≡ (if str_eq k j then none else get now j c)
unfolding reset get
get-reset now k j c = ground (arith, eq_iff k j, lookup-erase k j c)

-- A key that is forced to expire reads as absent, and its next increment starts a window at 1.
pub get-expire_now :
    (now : Time) (k : String) (c : Counter)
    → second < now
    → (get now k (expire_now now k c) ≡ none) × ((incr now k (expire_now now k c)).1 ≡ 1)
unfolding expire_now get incr
get-expire_now now k c h = elim (Option-cases (lookup k c)) [
  | inl e ↦ ground arith
  | inr (v, e) ↦
      ground (arith, eq_iff k k, lookup-insert k k (record v { expires = now - second }) c)
]

-- The sweep is invisible: whatever a read shows, and whatever `Len` counts, at that instant or
-- later, is the same with the sweep and without it.
pub get-sweep :
    (t now : Time) (k : String) (c : Counter)
    → t ≤ now
    → IsMap c
    → (get now k (sweep t c) ≡ get now k c) × (len now (sweep t c) ≡ len now c)
unfolding sweep get len
get-sweep t now k c h m = (
  elim (Option-cases (lookup k c)) [
    | inl e ↦ ground (arith, lookup-retain (λ e. not (has_expired t e)) k c m)
    | inr (v, e) ↦ ground (arith, lookup-retain (λ e. not (has_expired t e)) k c m)
  ],
  count_if-retain (is_counted now) (λ e. not (has_expired t e)) c (λ e p. ground arith),
)

-- No method lists a key twice.
pub incr-IsMap : (now : Time) (k : String) (c : Counter) → IsMap c → IsMap (incr now k c).0
unfolding incr
incr-IsMap now k c m = insert-IsMap k _ c m

pub expire-IsMap :
    (now : Time) (k : String) (d : Duration) (c : Counter) → IsMap c → IsMap (expire now k d c)
unfolding expire
expire-IsMap now k d c m = elim (Option-cases (lookup k c)) [
  | inl e ↦ rw (e, expire) m
  | inr (v, e) ↦ rw (e, expire) (insert-IsMap k _ c m)
]
