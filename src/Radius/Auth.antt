-- ===== src/Radius/Auth.antt =====
-- internal/radius/handlers.go (`handleAuth`, `applyRateLimit`, `effectiveRateLimit`),
-- authorisation.go and `handleMAB` of mab.go. A handler's reply to the NAS is a value; metrics and
-- log lines are left out. Database look-ups, the resolved NAS, bcrypt and the keyed hash are fields
-- of `Backend`, and the reply of the EAP handler, if it takes the packet, is an argument.
pub mod Admission
use isp.Common.{
  ℕ, String, str_eq, Bool, true, false, not, ◌&&◌, ◌||◌, Option, none, some, List, [], ltb,
  if◌then◌else◌,
}
use isp.Common.Clock.{Time}
use isp.Common.Bytes.{Bytes, text, bytes_eq}
use isp.Nas.Attributes.{Vendor, mikrotik, RateProfile, Attr, build_accept_attrs, is_empty}
use isp.Radius.BruteForce
use isp.Radius.BruteForce.{Guard, record_failure, reset}
use isp.Radius.VerifierCache
use isp.Radius.VerifierCache.{Cache, store}
use isp.Radius.Mac.{normalise_mac, looks_like_mab}

pub record Subscriber : Type 0 where
  pub id : ℕ
  pub username : String
  pub password_hash : Bytes
  pub status : String
  pub rate_limit_str : Bytes
  pub fup_active : Bool
  pub fup_throttle : Bytes
  pub speed_override_rate_limit : Bytes
  pub speed_override_expires_at : Option Time
  pub plan_id : ℕ
  pub nt_hash : Bytes
  pub volume_gb : ℕ

unfoldable pub authorises_service : String → Bool
authorises_service status =
    str_eq status "active" || (str_eq status "grace_period" || str_eq status "soft_suspended")

unfoldable pub effective_rate_limit : Time → Subscriber → Bytes
effective_rate_limit now sub =
    if not (is_empty sub.speed_override_rate_limit)
      && elim sub.speed_override_expires_at [ none ↦ true | some t ↦ ltb now t ]
    then sub.speed_override_rate_limit
    else if sub.fup_active && not (is_empty sub.fup_throttle)
    then sub.fup_throttle
    else sub.rate_limit_str

-- internal/nas/nas.go, the fields that these handlers read.
pub record Device : Type 0 where
  pub id : ℕ
  pub vendor : Vendor
  pub allow_mab : Bool

-- The result of a database look-up that may fail and may find nothing.
pub data Fetched (A : Type 0) : Type 0 where
  failed absent : Fetched A
  found : A → Fetched A

pub record Backend : Type 0 where
  pub get_subscriber_by_username : String → Fetched Subscriber
  -- `mabDB`, if it is set
  pub authorize_mac : Option (Bytes → ℕ → Fetched Subscriber)
  -- `nasResolver`, if it is set: the device of the request's address, and `ResolveProfile`
  pub resolver : Option (Device × (ℕ → Vendor → Bytes))
  pub bcrypt_matches : Bytes → Bytes → Bool
  pub mac : Bytes → Bytes
  pub new_vendor_specific : ℕ → Bytes → Option Bytes

pub data Reply : Type 0 where
  access_accept : Subscriber → List Attr → Reply
  access_reject : Reply

-- The state that authentication changes.
pub record Daemon : Type 0 where
  pub guard : Guard
  pub verifier_cache : Cache

module _ (b : Backend) where
  -- The attributes added to an Access-Accept: none where the vendor's builder fails.
  unfoldable pub apply_rate_limit : Time → Subscriber → List Attr
  apply_rate_limit now sub =
      let rate = effective_rate_limit now sub in
      let attrs : Option (List Attr) = elim b.resolver [
        | none ↦
            build_accept_attrs b.new_vendor_specific mikrotik
              (record { rate_limit_string = rate; profile_name = [] })
        | some (device, profile) ↦
            build_accept_attrs b.new_vendor_specific device.vendor (record {
              rate_limit_string = rate;
              profile_name = profile sub.plan_id device.vendor;
            })
      ] in
      elim attrs [ none ↦ [] | some l ↦ l ]

  -- The third gate, on what the look-up of the address gave.
  mab_reply : Time → Fetched Subscriber → Reply
  mab_reply now failed = access_reject
  mab_reply now absent = access_reject
  mab_reply now (found sub) =
      if authorises_service sub.status
      then access_accept sub (apply_rate_limit now sub)
      else access_reject

  -- `none` where the handler does not take the packet. The MAC of a packet that looks like MAB
  -- normalises, so the empty text stands for no case.
  unfoldable pub handle_mab : Time → String → Bytes → Option Reply
  unfolding mab_reply
  handle_mab now username password =
      if looks_like_mab (text username) password
      then elim b.authorize_mac [
        | none ↦ none
        | some authorize ↦ elim b.resolver [
          | none ↦ some access_reject
          | some (device, profile) ↦
              if device.allow_mab
              then some (
                  mab_reply now (
                    authorize (elim (normalise_mac (text username)) [ none ↦ [] | some m ↦ m ])
                      device.id))
              else some access_reject
        ]
      ]
      else none

  -- Past the password: the failure counter is cleared if there is one, and the reply is an accept.
  pap_accept : Time → String → Bool → Subscriber → Cache → Daemon → Daemon × Reply
  pap_accept now username has_failures sub cache d = (
    record {
      guard = if has_failures then reset username d.guard else d.guard;
      verifier_cache = cache;
    },
    access_accept sub (apply_rate_limit now sub),
  )

  pap_credentials : Time → String → Bytes → Bool → Subscriber → Daemon → Daemon × Reply
  unfolding pap_accept
  pap_credentials now username password has_failures sub d =
      if VerifierCache.check b.mac now username password sub.password_hash d.verifier_cache
      then pap_accept now username has_failures sub d.verifier_cache d
      else if b.bcrypt_matches sub.password_hash password
      then pap_accept now username has_failures sub
          (store b.mac now username password sub.password_hash d.verifier_cache) d
      else (record d { guard = record_failure now username d.guard }, access_reject)

  pap_lookup : Time → String → Bytes → Bool → Fetched Subscriber → Daemon → Daemon × Reply
  pap_lookup now username password has_failures failed d =
      (record d { guard = record_failure now username d.guard }, access_reject)
  pap_lookup now username password has_failures absent d =
      (record d { guard = record_failure now username d.guard }, access_reject)
  pap_lookup now username password has_failures (found sub) d =
      if authorises_service sub.status
      then pap_credentials now username password has_failures sub d
      else (d, access_reject)

  -- The PAP part of `handleAuth`.
  unfoldable pub handle_pap : Time → String → Bytes → Daemon → Daemon × Reply
  unfolding pap_lookup pap_credentials
  handle_pap now username password d =
      let (blocked, has_failures) = BruteForce.check now username d.guard in
      if blocked
      then (d, access_reject)
      else pap_lookup now username password has_failures (b.get_subscriber_by_username username) d

  -- `eap` is the EAP handler's reply where it took the packet.
  unfoldable pub handle_auth : Option Reply → Time → String → Bytes → Daemon → Daemon × Reply
  handle_auth (some reply) now username password d = (d, reply)
  handle_auth none now username password d = elim (handle_mab now username password) [
    | some reply ↦ (d, reply)
    | none ↦ handle_pap now username password d
  ]
