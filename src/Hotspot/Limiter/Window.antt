-- ===== src/Hotspot/Limiter/Window.antt =====
-- limiter.go: how many attempts pass in one window, for every interleaving of attempts by any
-- clients with the counter's background sweeps.
use Prim.Native.Nat.{min}
use text.Mathlib.TextLemmas.{append_cancel_left}
use isp.Common.{
  ℕ, suc, ◌+◌, ◌≤◌, ◌≡◌, ◌≢◌, ◌∙◌, not, String, str_eq, eq_iff, Bool, false, ◌&&◌, Option, none,
  some, List, [], ◌∷◌, inl, inr, arith, ◌==◌, if◌then◌else◌, Bool-cases,
}
use isp.Common.Clock.{Time, Duration}
use isp.Common.Maps.{lookup, insert, IsMap, lookup-insert, lookup-retain, retain-IsMap}
use isp.Localcache.Counter.{Counter, has_expired, live_or_fresh, get, incr, expire, sweep}
use isp.Localcache.Counter.Reads.{incr-IsMap, expire-IsMap}
use isp.Hotspot.Limiter.{Limiter, attempts_key, count_attempt, allow}

-- What happens to the limiter: an attempt by a client, or a tick of the sweep.
pub data Event : Type 0 where
  attempt : Time → String → Event
  tick : Time → Event

abbrev pub sweep_limiter : Time → Limiter → Limiter
sweep_limiter t l = record l {
  counter = elim l.counter [ none ↦ none | some c ↦ some (sweep t c) ];
}

abbrev one_if : Bool → ℕ
one_if b = if b then 1 else 0

abbrev is_granted : Option Bool → Bool
is_granted none = false
is_granted (some b) = b

-- The number of attempts by one client, and how many of them the limiter lets through.
abbrev pub attempts_by : String → List Event → ℕ
attempts_by k [] = 0
attempts_by k (attempt t j ∷ es) = one_if (str_eq j k) + attempts_by k es
attempts_by k (tick t ∷ es) = attempts_by k es

unfoldable pub granted_to : String → Limiter → List Event → ℕ
granted_to k l [] = 0
granted_to k l (attempt t j ∷ es) =
    let (l', r) = allow t j l in one_if (str_eq j k && is_granted r) + granted_to k l' es
granted_to k l (tick t ∷ es) = granted_to k (sweep_limiter t l) es

-- Every event lies between the two instants.
abbrev pub Within : Time → Time → List Event → Type 0
Within a b [] = Unit
Within a b (attempt t j ∷ es) = (a ≤ t) × (t ≤ b) × Within a b es
Within a b (tick t ∷ es) = (a ≤ t) × (t ≤ b) × Within a b es

-- Distinct clients have distinct keys.
attempts_key_ne : (j k : String) → j ≢ k → attempts_key j ≢ attempts_key k
attempts_key_ne j k h e = h (append_cancel_left "hotspot:attempts:" j k e)

count_attempt-IsMap :
    (t : Time) (w : Duration) (k : String) (c : Counter) → IsMap c → IsMap (count_attempt t w k c).0
unfolding count_attempt
count_attempt-IsMap t w k c m = elim (Bool-cases ((incr t k c).1 == 1)) [
  | inl e ↦ rw e (expire-IsMap t k w (incr t k c).0 (incr-IsMap t k c m))
  | inr e ↦ rw e (incr-IsMap t k c m)
]

-- The first attempt of a window arms the deadline; the later ones leave it alone.
first_attempt :
    (t : Time) (w : Duration) (k : String) (c : Counter)
    → get t k c ≡ none
    → ((count_attempt t w k c).1 ≡ 1)
      × (lookup k (count_attempt t w k c).0 ≡ some (record { count = 1; expires = t + w }))
unfolding count_attempt incr expire get
first_attempt t w k c e = ground (
  arith,
  eq_iff k k,
  lookup-insert k k (record { count = 1; expires = 0 }) c,
  lookup-insert k k (record { count = 1; expires = t + w })
      (insert k (record { count = 1; expires = 0 }) c),
)

later_attempt :
    (t b : Time) (w : Duration) (k : String) (c : Counter) (n : ℕ)
    → lookup k c ≡ some (record { count = suc n; expires = b })
    → t ≤ b
    → ((count_attempt t w k c).1 ≡ suc (suc n))
      × (lookup k (count_attempt t w k c).0 ≡ some (record { count = suc (suc n); expires = b }))
unfolding count_attempt incr
later_attempt t b w k c n e h =
    ground (arith, eq_iff k k, lookup-insert k k (record { count = suc n + 1; expires = b }) c)

other_attempt :
    (t : Time) (w : Duration) (j k : String) (c : Counter)
    → j ≢ k
    → lookup k (count_attempt t w j c).0 ≡ lookup k c
unfolding count_attempt incr expire
other_attempt t w j k c h =
    let e = record (live_or_fresh t (lookup j c)) {
      count = (live_or_fresh t (lookup j c)).count + 1;
    } in
    ground (
      arith,
      eq_iff j k,
      eq_iff j j,
      lookup-insert j k e c,
      lookup-insert j j e c,
      lookup-insert j k (record e { expires = t + w }) (insert j e c),
    )

lookup-sweep :
    (t b : Time) (k : String) (c : Counter) (n : ℕ)
    → IsMap c
    → lookup k c ≡ some (record { count = n; expires = b })
    → t ≤ b
    → lookup k (sweep t c) ≡ some (record { count = n; expires = b })
unfolding sweep
lookup-sweep t b k c n m e h = ground (arith, lookup-retain (λ e. not (has_expired t e)) k c m)

module _ (k : String) (limit : ℕ) (w : Duration) (b : Time) where
  abbrev limiter : Counter → Limiter
  limiter c = record { counter = some c; limit = limit; window = w }

  -- With n attempts already counted, the rest of the window grants what the limit leaves.
  granted_from :
      (a : Time) (es : List Event) (n : ℕ) (c : Counter)
      → IsMap c
      → lookup (attempts_key k) c ≡ some (record { count = suc n; expires = b })
      → Within a b es
      → granted_to k (limiter c) es + min (suc n) limit ≡ min (suc n + attempts_by k es) limit
  unfolding granted_to allow
  granted_from a [] n c m e h = omega arith
  granted_from a (tick t ∷ es) n c m e h =
      granted_from a es n (sweep t c) (unfold sweep in retain-IsMap _ c m)
        (lookup-sweep t b (attempts_key k) c (suc n) m e h.1) h.2
  granted_from a (attempt t j ∷ es) n c m e h = elim (Bool-cases (str_eq j k)) [
    | inl same ↦
        let (counted, kept) = later_attempt t b w (attempts_key k) c n e h.1 in
        let rest =
          granted_from a es (suc n) (count_attempt t w (attempts_key k) c).0
            (count_attempt-IsMap t w (attempts_key k) c m) kept h.2 in
        rw ((eq_iff j k).0 same) (ground (arith, eq_iff k k, counted, rest))
    | inr other ↦
        let kept =
          other_attempt t w (attempts_key j) (attempts_key k) c
            (attempts_key_ne j k (λ p. cc ((eq_iff j k).1 p)))
          ∙ e in
        let rest =
          granted_from a es n (count_attempt t w (attempts_key j) c).0
            (count_attempt-IsMap t w (attempts_key j) c m) kept h.2 in
        rw other (omega (arith, rest))
  ]

-- A client with no live count starts a window with its first attempt. From then until the window
-- ends the limiter lets through its attempts up to the limit and none beyond it, whatever other
-- clients do and whenever the sweep runs.
pub window_grants :
    (k : String) (limit : ℕ) (w : Duration) (a : Time) (c : Counter) (es : List Event)
    → IsMap c
    → get a (attempts_key k) c ≡ none
    → Within a (a + w) es
    → granted_to k (record { counter = some c; limit = limit; window = w }) (attempt a k ∷ es)
      ≡ min (1 + attempts_by k es) limit
unfolding granted_to allow
window_grants k limit w a c es m e h =
    let (counted, armed) = first_attempt a w (attempts_key k) c e in
    let rest =
      granted_from k limit w (a + w) a es 0 (count_attempt a w (attempts_key k) c).0
        (count_attempt-IsMap a w (attempts_key k) c m) armed h in
    ground (arith, eq_iff k k, counted, rest)
