-- ===== src/Radius/VerifierCache/Soundness.antt =====
-- verifiercache.go: what a hit says of the password.
use isp.Common.{
  ℕ, ◌+◌, ◌^◌, ◌<◌, ◌≡◌, refl, ap, sym, ◌∙◌, String, str_eq, Bool, true, none, some, List, [], ◌∷◌,
  ◌++◌, inl, inr, arith, ltb, Option-cases, Bool-cases,
}
use mathlib.Core.Path.{subst}
use mathlib.Core.Option.{some-injective}
use mathlib.Core.List.{tail, append_assoc, append-nil}
use isp.Common.Clock.{Time, Duration}
use isp.Common.Bytes.{from_be, Bytes, length, bytes_eq, eq_of-bytes_eq}
use isp.Localcache.Store.{Store, get, set, delete}
use isp.Common.Maps.{lookup, lookup-insert, lookup-erase}
use isp.Localcache.Store.{StoreEntry}
use isp.Radius.VerifierCache.{
  Cache, PersistedVerifier, verifier_key, be64, length_prefixed, message, check, store, warm_rows,
  invalidate,
}

from_be-be64 : (n : ℕ) → n < 2 ^ 64 → from_be 0 (be64 n) ≡ n
unfolding be64
from_be-be64 n h = omega arith

-- Two lists of bytes of one length that begin equal lists are equal, and so are the rests.
append-injective :
    (a b : Bytes) {x y : Bytes} → length a ≡ length b → a ++ x ≡ b ++ y → (a ≡ b) × (x ≡ y)
append-injective [] [] l e = (refl, e)
append-injective [] (c ∷ b) l e = absurd (omega arith)
append-injective (c ∷ a) [] l e = absurd (omega arith)
append-injective (c ∷ a) (d ∷ b) l e =
    let (p, q) = append-injective a b (omega arith) (ap tail e) in (cc, q)

-- A length prefix marks where a text ends.
length_prefixed-injective :
    (a b : Bytes) {x y : Bytes}
    → length a < 2 ^ 64
    → length b < 2 ^ 64
    → length_prefixed a ++ x ≡ length_prefixed b ++ y
    → (a ≡ b) × (x ≡ y)
unfolding length_prefixed
length_prefixed-injective a b {x} {y} la lb e =
    let e' : be64 (length a) ++ (a ++ x) ≡ be64 (length b) ++ (b ++ y) =
      sym (append_assoc (be64 (length a)) a x) ∙ e ∙ append_assoc (be64 (length b)) b y in
    let (p, q) = append-injective (be64 (length a)) (be64 (length b)) (unfold be64 in refl) e' in
    append-injective a b
      (sym (from_be-be64 (length a) la) ∙ ap (from_be 0) p ∙ from_be-be64 (length b) lb) q

-- The hashed message determines the password and the hash it was checked against: no other pair of
-- texts shorter than 2^64 bytes gives the same one.
pub message-injective :
    (p h p' h' : Bytes)
    → length p < 2 ^ 64
    → length h < 2 ^ 64
    → length p' < 2 ^ 64
    → length h' < 2 ^ 64
    → message p h ≡ message p' h'
    → (p ≡ p') × (h ≡ h')
unfolding message
message-injective p h p' h' a b c d e =
    let (same, rest) = length_prefixed-injective p p' a c e in
    (
      same,
      (length_prefixed-injective h h' {x = []} {y = []} b d (rw (append-nil, append-nil) rest)).0,
    )

-- `bcrypt_matches hash password` is bcrypt's comparison, and `mac` the keyed hash, of which the code
-- relies on that two messages do not collide.
module _ (bcrypt_matches : Bytes → Bytes → Bool) (mac : Bytes → Bytes)
    (collision_free : (x y : Bytes) → mac x ≡ mac y → x ≡ y) where
  -- A verifier that was computed from a password that bcrypt accepted.
  abbrev pub IsEarned : Bytes → Type 0
  IsEarned v =
      (p : Bytes) × (h : Bytes) × (length p < 2 ^ 64)
      × (length h < 2 ^ 64)
      × (v ≡ mac (message p h))
      × (bcrypt_matches h p ≡ true)

  abbrev pub EarnedStore : Store Bytes → Type 0
  EarnedStore s = (k : String) (e : StoreEntry Bytes) → lookup k s ≡ some e → IsEarned e.val

  abbrev pub IsEarnedCache : Cache → Type 0
  IsEarnedCache none = Unit
  IsEarnedCache (some s) = EarnedStore s

  hit_read :
      (now : Time) (k : String) (s : Store Bytes) {v : Bytes}
      → EarnedStore s
      → get now k s ≡ some v
      → IsEarned v
  unfolding get
  hit_read now k s {v} ok e = elim (Option-cases (lookup k s)) [
    | inl absent ↦ cc
    | inr (entry, found) ↦ subst IsEarned (ground arith) (ok k entry found)
  ]

  -- A hit on the fast path implies that bcrypt accepts this very password against this very hash, in
  -- a cache that bcrypt filled, where the keyed hash has no collisions and the texts are shorter than
  -- 2^64 bytes.
  pub check_sound :
      (now : Time) (username : String) (p h : Bytes) (c : Cache)
      → IsEarnedCache c
      → length p < 2 ^ 64
      → length h < 2 ^ 64
      → check mac now username p h c ≡ true
      → bcrypt_matches h p ≡ true
  unfolding check
  check_sound now username p h none ok lp lh e = cc
  check_sound now username p h (some s) ok lp lh e =
      elim (Option-cases (get now (verifier_key username) s)) [
        | inl absent ↦ ground arith
        | inr (v, found) ↦
            let hit : bytes_eq (mac (message p h)) v ≡ true = ground arith in
            let (p', h', lp', lh', made, matched) =
              hit_read now (verifier_key username) s ok found in
            let (ep, eh) = message-injective p h p' h' lp lh lp' lh' (
              collision_free (message p h) (message p' h')
                (eq_of-bytes_eq (mac (message p h)) v hit ∙ made)) in
            rw (ep, eh) matched
      ]

  set-EarnedStore :
      (now : Time) (k : String) (v : Bytes) (d : Duration) (s : Store Bytes)
      → IsEarned v
      → EarnedStore s
      → EarnedStore (set now k v d s)
  unfolding set
  set-EarnedStore now k v d s good ok j e found = elim (Bool-cases (str_eq k j)) [
    | inl same ↦
        subst IsEarned
          (ap StoreEntry.val (
            some-injective (record { val = v; expires = now + d }) e
              (ground (arith, lookup-insert k j (record { val = v; expires = now + d }) s))))
          good
    | inr other ↦
        ok j e (ground (arith, lookup-insert k j (record { val = v; expires = now + d }) s))
  ]

  -- What each operation that changes the cache keeps.
  pub store-IsEarnedCache :
      (now : Time) (username : String) (p h : Bytes) (c : Cache)
      → bcrypt_matches h p ≡ true
      → length p < 2 ^ 64
      → length h < 2 ^ 64
      → IsEarnedCache c
      → IsEarnedCache (store mac now username p h c)
  unfolding store
  store-IsEarnedCache now username p h none m lp lh ok = tt
  store-IsEarnedCache now username p h (some s) m lp lh ok =
      set-EarnedStore now (verifier_key username) (mac (message p h)) _ s (p, h, lp, lh, refl, m) ok

  invalidate-IsEarnedCache :
      (username : String) (c : Cache) → IsEarnedCache c → IsEarnedCache (invalidate username c)
  unfolding invalidate delete
  invalidate-IsEarnedCache username none ok = tt
  invalidate-IsEarnedCache username (some s) ok =
      λ k e found. ok k e (ground (arith, lookup-erase (verifier_key username) k s))

  abbrev EarnedRows : List PersistedVerifier → Type 0
  EarnedRows [] = Unit
  EarnedRows (row ∷ rows) = IsEarned row.verifier × EarnedRows rows

  warm_rows-EarnedStore :
      (now : Time) (rows : List PersistedVerifier) (s : Store Bytes)
      → EarnedRows rows
      → EarnedStore s
      → EarnedStore (warm_rows now rows s)
  unfolding warm_rows
  warm_rows-EarnedStore now [] s good ok = ok
  warm_rows-EarnedStore now (row ∷ rows) s good ok = elim (Bool-cases (ltb now row.expires_at)) [
    | inl fresh ↦
        rw (fresh, warm_rows)
          (warm_rows-EarnedStore now rows _ good.1
            (set-EarnedStore now (verifier_key row.username) row.verifier _ s good.0 ok))
    | inr late ↦ rw (late, warm_rows) (warm_rows-EarnedStore now rows s good.1 ok)
  ]
