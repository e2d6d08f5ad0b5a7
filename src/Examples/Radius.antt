-- ===== src/Examples/Radius.antt =====
-- A RADIUS server with one subscriber, who logs in by password and by the address of a device.
use isp.Common.{
  ℕ, ◌≡◌, ◌⊎◌, ◌↔◌, refl, ◌*◌, String, str_eq, true, false, none, some, List, [], ◌∷◌,
  if◌then◌else◌, arith,
}
use isp.Common.Clock.{second}
use isp.Common.Bytes.{Bytes, text, bytes_eq}
use isp.Nas.Attributes.{Vendor, huawei}
use isp.Radius.Auth.{
  Subscriber, Device, Fetched, absent, found, Backend, Daemon, access_accept, apply_rate_limit,
  handle_auth, handle_mab, handle_pap, authorises_service,
}
use isp.Radius.Auth.Admission.{
  handle_auth_grants, handle_mab-accept_iff, handle_pap-refines-bcrypt, handle_pap-IsEarnedIn,
  pap_by_bcrypt, IsEarnedIn,
}
use isp.Radius.BruteForce.{is_blocked}
use isp.Radius.BruteForce.Streak.{Event, after, streak_after, is_blocking, blocked-refines-streak}
use isp.Common.Maps.{lookup}
use isp.Localcache.Store.{StoreEntry, Store}
use isp.Radius.Mac.{looks_like_mab, normalise_mac}
use isp.Radius.VerifierCache.{Cache, message, check, store}
use isp.Radius.VerifierCache.Soundness.{check_sound, IsEarned, store-IsEarnedCache}

abbrev alice : Subscriber
alice = record {
  id = 7;
  username = "alice";
  password_hash = text "secret";
  status = "grace_period";
  rate_limit_str = text "10M/2M";
  fup_active = false;
  fup_throttle = [];
  speed_override_rate_limit = [];
  speed_override_expires_at = none;
  plan_id = 3;
  nt_hash = [];
  volume_gb = 0;
}

abbrev device : Device
device = record { id = 1; vendor = huawei; allow_mab = true }

abbrev mac_text : Bytes
mac_text = text "AA:BB:CC:DD:EE:01"

abbrev authorize : Bytes → ℕ → Fetched Subscriber
authorize mac id = if bytes_eq mac mac_text then found alice else absent

abbrev profile : ℕ → Vendor → Bytes
profile plan vendor = []

abbrev backend : Backend
backend = record {
  get_subscriber_by_username = λ u. if str_eq u "alice" then found alice else absent;
  authorize_mac = some authorize;
  resolver = some (device, profile);
  bcrypt_matches = bytes_eq;
  mac = λ s. s;
  new_vendor_specific = λ id s. some s;
}

abbrev daemon : Daemon
daemon = record { guard = some []; verifier_cache = some [] }

handle_auth_grants_example :
    (alice.status ≡ "active")
    ⊎ ((alice.status ≡ "grace_period") ⊎ (alice.status ≡ "soft_suspended"))
unfolding handle_auth handle_mab handle_pap authorises_service looks_like_mab normalise_mac
    isp.Radius.BruteForce.check isp.Localcache.Counter.get check isp.Localcache.Store.get
handle_auth_grants_example =
    handle_auth_grants backend 5 "alice" (text "secret") daemon alice
      (apply_rate_limit backend 5 alice) refl

handle_mab-accept_iff_example :
    (handle_mab backend 5 "AA-BB-CC-DD-EE-01" []
      ≡ some (access_accept alice (apply_rate_limit backend 5 alice)))
    ↔ ((allow : Bytes → ℕ → Fetched Subscriber) × (nas : Device) × (prof : ℕ → Vendor → Bytes)
        × (backend.authorize_mac ≡ some allow)
        × (backend.resolver ≡ some (nas, prof))
        × (nas.allow_mab ≡ true)
        × (allow mac_text nas.id ≡ found alice)
        × (authorises_service alice.status ≡ true))
unfolding normalise_mac looks_like_mab
handle_mab-accept_iff_example =
    handle_mab-accept_iff backend 5 "AA-BB-CC-DD-EE-01" [] mac_text alice refl refl

-- The cache after alice has logged in once.
abbrev warm_daemon : Daemon
warm_daemon = record {
  guard = some [];
  verifier_cache = store backend.mac 5 "alice" (text "secret") alice.password_hash (some []);
}

abbrev no_rows : Store Bytes
no_rows = []

no_rows-IsEarned :
    (k : String) (e : StoreEntry Bytes)
    → lookup k no_rows ≡ some e
    → IsEarned backend.bcrypt_matches backend.mac (λ x y h. h) e.val
no_rows-IsEarned k e h = cc

warm_daemon-IsEarnedIn : IsEarnedIn backend (λ x y h. h) warm_daemon
warm_daemon-IsEarnedIn =
    store-IsEarnedCache backend.bcrypt_matches backend.mac (λ x y h. h) 5 "alice" (text "secret")
      alice.password_hash (some []) refl (omega arith) (omega arith) no_rows-IsEarned

handle_pap-refines-bcrypt_example :
    (
      (handle_pap backend 9 "alice" (text "secret") warm_daemon).0.guard,
      (handle_pap backend 9 "alice" (text "secret") warm_daemon).1,
    )
    ≡ pap_by_bcrypt backend 9 "alice" (text "secret") warm_daemon.guard
handle_pap-refines-bcrypt_example =
    handle_pap-refines-bcrypt backend (λ x y h. h) 9 "alice" (text "secret") warm_daemon
      warm_daemon-IsEarnedIn (omega arith, omega arith)

handle_pap-IsEarned_in_example :
    IsEarnedIn backend (λ x y h. h) (handle_pap backend 9 "alice" (text "secret") warm_daemon).0
handle_pap-IsEarned_in_example =
    handle_pap-IsEarnedIn backend (λ x y h. h) 9 "alice" (text "secret") warm_daemon
      warm_daemon-IsEarnedIn (omega arith, omega arith)

check_sound_example : bytes_eq (text "secret") (text "secret") ≡ true
unfolding check store isp.Localcache.Store.get isp.Localcache.Store.set message
    isp.Radius.VerifierCache.length_prefixed isp.Radius.VerifierCache.be64
check_sound_example =
    check_sound bytes_eq (λ s. s) (λ x y h. h) 6 "alice" (text "secret") (text "secret")
      warm_daemon.verifier_cache warm_daemon-IsEarnedIn (omega arith) (omega arith) refl

abbrev attempts : List Event
attempts =
    Event.failure (1 * second) "alice"
    ∷ Event.failure (2 * second) "bob"
    ∷ Event.tick (3 * second)
    ∷ Event.success "bob"
    ∷ []

blocked-refines-streak_example :
    is_blocked (4 * second) "alice" (after (some []) attempts)
    ≡ is_blocking (4 * second) (streak_after "alice" none attempts)
blocked-refines-streak_example =
    blocked-refines-streak "alice" 1 (4 * second) attempts (omega arith)
      (omega arith, (omega arith, (omega arith, omega arith)))
