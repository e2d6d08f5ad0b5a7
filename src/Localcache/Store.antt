-- ===== src/Localcache/Store.antt =====
-- internal/localcache/ttlmap.go: `Store[V]`, the generic TTL map. Each method holds the lock for its
-- whole body, so a method is one function from the map to the new map, at the instant that
-- `time.Now()` reads.
pub mod Reads
use isp.Common.{
  ℕ, ◌+◌, ◌-◌, String, Bool, true, false, not, ◌&&◌, ◌||◌, Option, none, some, List, [], ◌∷◌, ltb,
  if◌then◌else◌,
}
use isp.Common.Clock.{Time, Duration, second, is_zero}
use isp.Common.Maps.{lookup, insert, erase, retain, count_if}

pub record StoreEntry {ℓ} (V : Type ℓ) : Type ℓ where
  pub val : V
  pub expires : Time

abbrev pub Store {ℓ} : Type ℓ → Type ℓ
Store V = List (String × StoreEntry V)

module _ {ℓ} {V : Type ℓ} where
  -- `e.expires.IsZero() || now.After(e.expires)`
  abbrev pub is_stale : Time → StoreEntry V → Bool
  is_stale now e = is_zero e.expires || ltb e.expires now

  -- `!e.expires.IsZero() && now.Before(e.expires)`
  abbrev pub is_live : Time → StoreEntry V → Bool
  is_live now e = not (is_zero e.expires) && ltb now e.expires

  unfoldable pub get : Time → String → Store V → Option V
  get now key s = elim (lookup key s) [
    | none ↦ none
    | some e ↦ if is_stale now e then none else some e.val
  ]

  unfoldable pub set : Time → String → V → Duration → Store V → Store V
  set now key v ttl s = insert key (record { val = v; expires = now + ttl }) s

  unfoldable pub try_set : Time → String → V → Duration → Store V → Store V × Bool
  unfolding set
  try_set now key v ttl s = elim (lookup key s) [
    | none ↦ (set now key v ttl s, true)
    | some e ↦ if is_live now e then (s, false) else (set now key v ttl s, true)
  ]

  unfoldable pub delete : String → Store V → Store V
  delete key s = erase key s

  unfoldable pub ttl : Time → String → Store V → Duration
  ttl now key s = elim (lookup key s) [
    | none ↦ 0
    | some e ↦ if is_zero e.expires then 0 else if ltb now e.expires then e.expires - now else 0
  ]

  unfoldable pub keys : Time → Store V → List String
  keys now [] = []
  keys now ((k, e) ∷ s) = let rest = keys now s in if is_live now e then k ∷ rest else rest

  -- A time before one second after Go's zero time is out of reach, so `-` is exact.
  unfoldable pub expire_now : Time → String → Store V → Store V
  expire_now now key s = elim (lookup key s) [
    | none ↦ s
    | some e ↦ insert key (record { val = e.val; expires = now - second }) s
  ]

  unfoldable pub len : Time → Store V → ℕ
  len now s = count_if (is_live now) s

  -- One tick of the background sweep.
  unfoldable pub sweep : Time → Store V → Store V
  sweep now s = retain (λ e. not (is_stale now e)) s
