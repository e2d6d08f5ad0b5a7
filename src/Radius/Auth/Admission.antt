-- ===== src/Radius/Auth/Admission.antt =====
-- handlers.go and mab.go: who is let in, and what an attempt leaves behind.
use isp.Common.{
  ℕ, ◌^◌, ◌<◌, ◌≡◌, refl, ◌↔◌, ◌⊎◌, String, eq_iff, Bool, true, none, some, List, inl, inr, arith,
  if◌then◌else◌, Option-cases, Bool-cases,
}
use mathlib.Core.Path.{subst, sym}
use isp.Common.Clock.{Time}
use isp.Common.Bytes.{Bytes, text, length}
use isp.Nas.Attributes.{Vendor, Attr}
use isp.Radius.BruteForce
use isp.Radius.BruteForce.{Guard, is_blocked, record_failure, reset}
use isp.Radius.VerifierCache
use isp.Radius.VerifierCache.{Cache, store}
use isp.Radius.VerifierCache.Soundness.{IsEarnedCache, check_sound, store-IsEarnedCache}
use isp.Radius.Mac.{normalise_mac, looks_like_mab}
use isp.Radius.Auth.{
  Subscriber, Device, Fetched, failed, absent, found, Backend, Reply, access_accept, access_reject,
  Daemon, authorises_service, apply_rate_limit, mab_reply, handle_mab, pap_credentials, pap_lookup,
  handle_pap, handle_auth,
}

pub Fetched-cases :
    {A : Type 0} (f : Fetched A) → ((f ≡ failed) ⊎ (f ≡ absent)) ⊎ ((a : A) × (f ≡ found a))
Fetched-cases failed = inl (inl refl)
Fetched-cases absent = inl (inr refl)
Fetched-cases (found a) = inr (a, refl)

module _ (b : Backend) where
  handle_mab-known :
      (now : Time) (username : String) (password mac : Bytes)
      (authorize : Bytes → ℕ → Fetched Subscriber) (device : Device) (profile : ℕ → Vendor → Bytes)
      (sub : Subscriber)
      → normalise_mac (text username) ≡ some mac
      → looks_like_mab (text username) password ≡ true
      → b.authorize_mac ≡ some authorize
      → b.resolver ≡ some (device, profile)
      → (handle_mab b now username password ≡ some (access_accept sub (apply_rate_limit b now sub)))
        ↔ ((device.allow_mab ≡ true)
            × (authorize mac device.id ≡ found sub)
            × (authorises_service sub.status ≡ true))
  unfolding handle_mab
  handle_mab-known now username password mac authorize device profile sub en el ea er =
      elim (Fetched-cases (authorize mac device.id)) [
        | inl (inl e) ↦ ground arith
        | inl (inr e) ↦ ground arith
        | inr (s, e) ↦ ground arith
      ]

  -- What lets a MAC address in: MAC authentication is on, the NAS is known and has MAB enabled, the
  -- address is registered on it, and the status of the subscriber behind it grants service.
  pub handle_mab-accept_iff :
      (now : Time) (username : String) (password mac : Bytes) (sub : Subscriber)
      → normalise_mac (text username) ≡ some mac
      → looks_like_mab (text username) password ≡ true
      → (handle_mab b now username password ≡ some (access_accept sub (apply_rate_limit b now sub)))
        ↔ ((authorize : Bytes → ℕ → Fetched Subscriber) × (device : Device) × (profile : ℕ
              → Vendor
              → Bytes)
            × (b.authorize_mac ≡ some authorize)
            × (b.resolver ≡ some (device, profile))
            × (device.allow_mab ≡ true)
            × (authorize mac device.id ≡ found sub)
            × (authorises_service sub.status ≡ true))
  unfolding handle_mab
  handle_mab-accept_iff now username password mac sub en el = (
    λ h. elim (Option-cases b.authorize_mac) [
      | inl ea ↦ ground (arith, h, ea)
      | inr (authorize, ea) ↦ elim (Option-cases b.resolver) [
        | inl er ↦ ground (arith, h, ea, er)
        | inr ((device, profile), er) ↦
            let known =
              handle_mab-known now username password mac authorize device profile sub en el ea er in
            let (allowed, it_is, status) = known.0 h in
            (authorize, device, profile, ea, er, allowed, it_is, status)
      ]
    ],
    λ (authorize, device, profile, ea, er, allowed, it_is, status).
        (handle_mab-known now username password mac authorize device profile sub en el ea er).1
          (allowed, it_is, status),
  )

  mab_grants :
      (now : Time) (f : Fetched Subscriber) (sub : Subscriber) (attrs : List Attr)
      → mab_reply b now f ≡ access_accept sub attrs
      → authorises_service sub.status ≡ true
  unfolding mab_reply
  mab_grants now failed sub attrs e = ground arith
  mab_grants now absent sub attrs e = ground arith
  mab_grants now (found s) sub attrs e = ground arith

  handle_mab_grants :
      (now : Time) (username : String) (password : Bytes) (sub : Subscriber) (attrs : List Attr)
      → handle_mab b now username password ≡ some (access_accept sub attrs)
      → authorises_service sub.status ≡ true
  unfolding handle_mab
  handle_mab_grants now username password sub attrs e = ground arith

  pap_lookup_grants :
      (now : Time) (username : String) (password : Bytes) (has : Bool) (f : Fetched Subscriber)
      (d : Daemon) (sub : Subscriber) (attrs : List Attr)
      → (pap_lookup b now username password has f d).1 ≡ access_accept sub attrs
      → authorises_service sub.status ≡ true
  unfolding pap_lookup pap_credentials
  pap_lookup_grants now username password has failed d sub attrs e = ground arith
  pap_lookup_grants now username password has absent d sub attrs e = ground arith
  pap_lookup_grants now username password has (found s) d sub attrs e = ground arith

  handle_pap_grants :
      (now : Time) (username : String) (password : Bytes) (d : Daemon) (sub : Subscriber)
      (attrs : List Attr)
      → (handle_pap b now username password d).1 ≡ access_accept sub attrs
      → authorises_service sub.status ≡ true
  unfolding handle_pap
  handle_pap_grants now username password d sub attrs e =
      elim (Bool-cases (BruteForce.check now username d.guard).0) [
        | inl blocked ↦ ground arith
        | inr free ↦
            pap_lookup_grants now username password (BruteForce.check now username d.guard).1
              (b.get_subscriber_by_username username) d sub attrs (ground arith)
      ]

  -- Suspension cannot be bypassed by the choice of access method: whoever MAC authentication or PAP
  -- lets in has one of the three statuses that grant service.
  pub handle_auth_grants :
      (now : Time) (username : String) (password : Bytes) (d : Daemon) (sub : Subscriber)
      (attrs : List Attr)
      → (handle_auth b none now username password d).1 ≡ access_accept sub attrs
      → (sub.status ≡ "active") ⊎ ((sub.status ≡ "grace_period") ⊎ (sub.status ≡ "soft_suspended"))
  unfolding handle_auth authorises_service
  handle_auth_grants now username password d sub attrs e =
      let ok : authorises_service sub.status ≡ true =
        elim (Option-cases (handle_mab b now username password)) [
          | inl not_mab ↦ handle_pap_grants now username password d sub attrs (ground arith)
          | inr (r, mab) ↦ handle_mab_grants now username password sub attrs (ground arith)
        ] in
      ground (
        arith,
        eq_iff sub.status "active",
        eq_iff sub.status "grace_period",
        eq_iff sub.status "soft_suspended",
      )

  -- PAP with no cache: bcrypt alone decides.
  pub pap_by_bcrypt : Time → String → Bytes → Guard → Guard × Reply
  pap_by_bcrypt now username password g =
      let (blocked, has_failures) = BruteForce.check now username g in
      if blocked then (g, access_reject) else elim (b.get_subscriber_by_username username) [
        | failed ↦ (record_failure now username g, access_reject)
        | absent ↦ (record_failure now username g, access_reject)
        | found sub ↦
            if authorises_service sub.status
            then if b.bcrypt_matches sub.password_hash password
              then (
                if has_failures then reset username g else g,
                access_accept sub (apply_rate_limit b now sub),
              )
              else (record_failure now username g, access_reject)
            else (g, access_reject)
      ]

  -- What an attempt does to the cache: nothing, or one more entry that bcrypt has just accepted.
  pap_cache :
      (now : Time) (username : String) (password : Bytes) (d : Daemon) (sub : Subscriber)
      → b.get_subscriber_by_username username ≡ found sub
      → ((handle_pap b now username password d).0.verifier_cache ≡ d.verifier_cache)
        ⊎ ((b.bcrypt_matches sub.password_hash password ≡ true)
            × ((handle_pap b now username password d).0.verifier_cache
                ≡ store b.mac now username password sub.password_hash d.verifier_cache))
  unfolding handle_pap
  pap_cache now username password d sub e = ground arith

  pap_cache_unfound :
      (now : Time) (username : String) (password : Bytes) (d : Daemon)
      → (b.get_subscriber_by_username username ≡ failed)
        ⊎ (b.get_subscriber_by_username username ≡ absent)
      → (handle_pap b now username password d).0.verifier_cache ≡ d.verifier_cache
  unfolding handle_pap
  pap_cache_unfound now username password d e = ground arith

  -- The texts that are hashed are shorter than 2^64 bytes, as every Go string is.
  abbrev pub FitSizes : Bytes → Fetched Subscriber → Type 0
  FitSizes password failed = Unit
  FitSizes password absent = Unit
  FitSizes password (found s) = (length password < 2 ^ 64) × (length s.password_hash < 2 ^ 64)

  module _ (collision_free : (x y : Bytes) → b.mac x ≡ b.mac y → x ≡ y) where
    abbrev pub IsEarnedIn : Daemon → Type 0
    IsEarnedIn d = IsEarnedCache b.bcrypt_matches b.mac collision_free d.verifier_cache

    pap_lookup-agrees :
        (now : Time) (username : String) (password : Bytes) (sub : Subscriber) (d : Daemon)
        → IsEarnedIn d
        → FitSizes password (found sub)
        → VerifierCache.check b.mac now username password sub.password_hash d.verifier_cache ≡ true
        → b.bcrypt_matches sub.password_hash password ≡ true
    pap_lookup-agrees now username password sub d ok sizes hit =
        check_sound b.bcrypt_matches b.mac collision_free now username password sub.password_hash
          d.verifier_cache ok sizes.0 sizes.1 hit

    -- The verified-password cache is an optimisation only: from a cache that bcrypt filled, an
    -- attempt gets the reply, and leaves the failure counters, that bcrypt alone would give,
    -- where the keyed hash has no collisions.
    pub handle_pap-refines-bcrypt :
        (now : Time) (username : String) (password : Bytes) (d : Daemon)
        → IsEarnedIn d
        → FitSizes password (b.get_subscriber_by_username username)
        → ((handle_pap b now username password d).0.guard, (handle_pap b now username password d).1)
          ≡ pap_by_bcrypt now username password d.guard
    unfolding handle_pap pap_by_bcrypt
    handle_pap-refines-bcrypt now username password d ok sizes =
        elim (Fetched-cases (b.get_subscriber_by_username username)) [
          | inl (inl e) ↦ ground arith
          | inl (inr e) ↦ ground arith
          | inr (sub, e) ↦ ground (
            arith,
            pap_lookup-agrees now username password sub d ok (subst (FitSizes password) e sizes),
          )
        ]

    -- And the cache stays one that bcrypt filled, where the keyed hash has no collisions.
    pub handle_pap-IsEarnedIn :
        (now : Time) (username : String) (password : Bytes) (d : Daemon)
        → IsEarnedIn d
        → FitSizes password (b.get_subscriber_by_username username)
        → IsEarnedIn (handle_pap b now username password d).0
    handle_pap-IsEarnedIn now username password d ok sizes =
        elim (Fetched-cases (b.get_subscriber_by_username username)) [
          | inl none_found ↦ keep (pap_cache_unfound now username password d none_found)
          | inr (sub, e) ↦
              let fit = subst (FitSizes password) e sizes in
              elim (pap_cache now username password d sub e) [
                | inl same ↦ keep same
                | inr (matched, stored) ↦
                    subst (IsEarnedCache b.bcrypt_matches b.mac collision_free) (sym stored) (
                      store-IsEarnedCache b.bcrypt_matches b.mac collision_free now username
                        password sub.password_hash d.verifier_cache matched fit.0 fit.1 ok)
              ]
        ]
      where
        keep :
            (handle_pap b now username password d).0.verifier_cache ≡ d.verifier_cache
            → IsEarnedIn (handle_pap b now username password d).0
        keep same = subst (IsEarnedCache b.bcrypt_matches b.mac collision_free) (sym same) ok
