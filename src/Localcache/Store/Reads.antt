-- ===== src/Localcache/Store/Reads.antt =====
-- ttlmap.go: what each method does to what the others observe.
use isp.Common.{
  ◌+◌, ◌≤◌, ◌<◌, ◌≡◌, ◌↔◌, ◌⊎◌, not, String, str_eq, eq_iff, true, false, Option, none, some, inl,
  inr, arith, ltb, if◌then◌else◌, Option-cases,
}
use isp.Common.Clock.{Time, Duration}
use isp.Common.Maps.{lookup, IsMap, lookup-insert, lookup-erase, lookup-retain, count_if-retain}
use isp.Localcache.Store.{Store, is_stale, is_live, get, set, try_set, delete, ttl, len, sweep}

module _ {ℓ} {V : Type ℓ} where
  -- A value is read back up to and at its deadline and never past it; other keys read as before.
  pub get-set :
      (t now : Time) (k j : String) (v : V) (d : Duration) (s : Store V)
      → 0 < t
      → get now j (set t k v d s)
        ≡ (if str_eq k j then if ltb (t + d) now then none else some v else get now j s)
  unfolding get set
  get-set t now k j v d s h =
      ground (arith, eq_iff k j, lookup-insert k j (record { val = v; expires = t + d }) s)

  abbrev pub deadline : String → Store V → Option Time
  deadline k s = elim (lookup k s) [ none ↦ none | some e ↦ some e.expires ]

  -- `TrySet` wins exactly when a read shows nothing, or the entry's deadline is this very instant.
  pub try_set_iff :
      (now : Time) (k : String) (v : V) (d : Duration) (s : Store V)
      → ((try_set now k v d s).1 ≡ true) ↔ ((get now k s ≡ none) ⊎ (deadline k s ≡ some now))
  unfolding try_set get
  try_set_iff now k v d s = elim (Option-cases (lookup k s)) [
    | inl e ↦ ground arith
    | inr (w, e) ↦ ground arith
  ]

  -- Two calls race on one key: within the first winner's lifetime the second loses and changes
  -- nothing.
  pub try_set-try_set :
      (t now : Time) (k : String) (v w : V) (d d' : Duration) (s : Store V)
      → 0 < t
      → (try_set t k v d s).1 ≡ true
      → now < t + d
      → try_set now k w d' (try_set t k v d s).0 ≡ ((try_set t k v d s).0, false)
  unfolding try_set set
  try_set-try_set t now k v w d d' s h won early = elim (Option-cases (lookup k s)) [
    | inl e ↦ ground (arith, eq_iff k k, lookup-insert k k (record { val = v; expires = t + d }) s)
    | inr (x, e) ↦
        ground (arith, eq_iff k k, lookup-insert k k (record { val = v; expires = t + d }) s)
  ]

  -- A deleted key reads as absent, and no other key changes.
  pub get-delete :
      (now : Time) (k j : String) (s : Store V)
      → get now j (delete k s) ≡ (if str_eq k j then none else get now j s)
  unfolding get delete
  get-delete now k j s = ground (arith, eq_iff k j, lookup-erase k j s)

  -- The sweep is invisible to every read, to the remaining time and to `Len`, then and later.
  pub get-sweep :
      (t now : Time) (k : String) (s : Store V)
      → t ≤ now
      → IsMap s
      → (get now k (sweep t s) ≡ get now k s)
        × (ttl now k (sweep t s) ≡ ttl now k s)
        × (len now (sweep t s) ≡ len now s)
  unfolding get ttl sweep len
  get-sweep t now k s h m = (
    elim (Option-cases (lookup k s)) [
      | inl e ↦ ground (arith, lookup-retain (λ e. not (is_stale t e)) k s m)
      | inr (v, e) ↦ ground (arith, lookup-retain (λ e. not (is_stale t e)) k s m)
    ],
    elim (Option-cases (lookup k s)) [
      | inl e ↦ ground (arith, lookup-retain (λ e. not (is_stale t e)) k s m)
      | inr (v, e) ↦ ground (arith, lookup-retain (λ e. not (is_stale t e)) k s m)
    ],
    count_if-retain (is_live now) (λ e. not (is_stale t e)) s (λ e p. ground arith),
  )
