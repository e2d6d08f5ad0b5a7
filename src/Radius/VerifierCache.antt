-- ===== src/Radius/VerifierCache.antt =====
-- internal/radius/verifiercache.go: the cache of verified passwords. `mac` is the keyed hash
-- (HMAC-SHA256 under the cache's secret) of the message that is written to it. A cache without a
-- store is `none`. The rows of the second tier are what `LoadActive` returned; saving a row or
-- deleting one leaves the first tier as it is, and their errors are only logged.
pub mod Soundness
use Prim.Native.String.{◌++◌ as ◌<>◌}
use isp.Common.{
  ℕ, ◌+◌, ◌-◌, ◌*◌, ◌/◌, ◌%◌, ◌^◌, String, Bool, true, false, Option, none, some, List, [], ◌∷◌,
  ◌++◌, ltb, if◌then◌else◌,
}
use isp.Common.Clock.{Time, Duration, minute}
use isp.Common.Bytes.{Bytes, length, bytes_eq}
use isp.Localcache.Store
use isp.Localcache.Store.{Store, get, set, delete}

pub record PersistedVerifier : Type 0 where
  pub username : String
  pub verifier : Bytes
  pub expires_at : Time

abbrev pub Cache : Type 0
Cache = Option (Store Bytes)

abbrev pub verifier_key : String → String
verifier_key username = "radius_verifier:" <> username

-- `binary.BigEndian.PutUint64`
unfoldable pub be64 : ℕ → Bytes
be64 n =
    (n / 2 ^ 56 % 256)
    ∷ (n / 2 ^ 48 % 256)
    ∷ (n / 2 ^ 40 % 256)
    ∷ (n / 2 ^ 32 % 256)
    ∷ (n / 2 ^ 24 % 256)
    ∷ (n / 2 ^ 16 % 256)
    ∷ (n / 2 ^ 8 % 256)
    ∷ (n % 256)
    ∷ []

-- `writeLengthPrefixed`
unfoldable pub length_prefixed : Bytes → Bytes
length_prefixed s = be64 (length s) ++ s

-- The message that `verifier` hashes.
unfoldable pub message : Bytes → Bytes → Bytes
message password password_hash = length_prefixed password ++ length_prefixed password_hash

abbrev pub verifier_cache_ttl : Duration
verifier_cache_ttl = 5 * minute

module _ (mac : Bytes → Bytes) where
  unfoldable pub check : Time → String → Bytes → Bytes → Cache → Bool
  check now username password password_hash none = false
  check now username password password_hash (some s) = elim (get now (verifier_key username) s) [
    | none ↦ false
    | some cached ↦ bytes_eq (mac (message password password_hash)) cached
  ]

  unfoldable pub store : Time → String → Bytes → Bytes → Cache → Cache
  store now username password password_hash none = none
  store now username password password_hash (some s) =
      some (
        set now (verifier_key username) (mac (message password password_hash)) verifier_cache_ttl s)

unfoldable pub warm_rows : Time → List PersistedVerifier → Store Bytes → Store Bytes
warm_rows now [] s = s
warm_rows now (row ∷ rows) s = warm_rows now rows (
    if ltb now row.expires_at
    then set now (verifier_key row.username) row.verifier (row.expires_at - now) s
    else s)

pub warm : Time → List PersistedVerifier → Cache → Cache
warm now rows none = none
warm now rows (some s) = some (warm_rows now rows s)

unfoldable pub invalidate : String → Cache → Cache
invalidate username none = none
invalidate username (some s) = some (delete (verifier_key username) s)
