-- ===== src/Examples/Eap.antt =====
-- A subscriber enrolled for EAP, with stand-ins for the hashes, and the requests of her supplicant.
use mathlib.Core.List.{Memᴰ}
use isp.Common.{
  ℕ, ◌≡◌, ◌≢◌, ◌↔◌, str_eq, refl, ap, true, false, none, some, [], ◌∷◌, arith, if◌then◌else◌, ◌++◌,
}
use isp.Common.Bytes.{Bytes, text, take, length, bytes_eq, IsBytes}
use isp.Radius.Auth.{Subscriber, found, absent}
use isp.Radius.Eap.Packet.{
  EapPacket, parse_eap, encode, Response, parse_response, with_flags, with_flags,
}
use isp.Radius.Eap.RoundTrip.{encode-parse_eap, response_bytes, response_bytes-parse_response}
use isp.Radius.Eap.Mschap.{
  Primitives, verify_mschapv2, verified, generate_nt_response, generate_authenticator_response,
  des_key_from_seven,
}
use isp.Radius.Eap.Mschap.{challenge_response, challenge_hash, strip_domain}
use isp.Radius.BruteForce.{reset, check}
use isp.Localcache.Counter
use isp.Radius.Auth.{authorises_service, apply_rate_limit}
use isp.Radius.Eap.Session.{
  EapSession, Sessions, Random, EapBackend, EapState, eap_accept, eap_challenge, discard,
}
use isp.Radius.Eap.Handler.{handle_eap, eap_attrs, challenge_packet, success_packet}
use isp.Radius.Eap.Steps.{success_of}
use isp.Radius.Eap.Conversation.{
  Peer, peer_request, identity_packet, response_packet, response_read, ack_packet, challenged,
  answered, answered_session, after_answer, honest_peer_accepted,
}
use isp.Radius.Eap.Admission.{Event, serve, Served, IsProof}
use isp.Radius.Eap.Issued.{IsIssued}
use isp.Radius.Eap.Earned.{accept_proven}
use isp.Radius.Eap.Accepts.{accepted_once}
use isp.Radius.Eap.Shaping.{eap_attrs-override}
use isp.Radius.Eap.Keys.{
  IsNtResponse, IsAuthenticatorResponse, des_key_from_seven-injective, verify_mschapv2_iff,
}

abbrev identity_request : EapPacket
identity_request = record { code = 1; identifier = 7; type = 1; data_bytes = [] }

encode-parse_eap_example : encode identity_request ≡ 1 ∷ 7 ∷ 0 ∷ 5 ∷ 1 ∷ []
unfolding parse_eap
encode-parse_eap_example =
    encode-parse_eap (1 ∷ 7 ∷ 0 ∷ 5 ∷ 1 ∷ []) identity_request
      (omega arith, (omega arith, (omega arith, (omega arith, (omega arith, tt))))) refl refl

abbrev zeros : ℕ → Bytes
zeros n = take n (
    0 ∷ 0 ∷ 0 ∷ 0 ∷ 0 ∷ 0 ∷ 0 ∷ 0 ∷ 0 ∷ 0 ∷ 0 ∷ 0 ∷ 0 ∷ 0 ∷ 0 ∷ 0 ∷ 0 ∷ 0 ∷ 0 ∷ 0 ∷ 0 ∷ 0 ∷ 0 ∷ 0
    ∷ [])

abbrev sent : Bytes
sent = 2 ∷ 7 ∷ 0 ∷ 59 ∷ 49 ∷ (zeros 24 ++ (zeros 24 ++ 0 ∷ text "anna"))

abbrev sent_response : Response
sent_response = record {
  id = 7;
  peer_challenge = zeros 16;
  nt_response = zeros 24;
  flags = 0;
  name = text "anna";
}

response_bytes-parse_response_example :
    (high low : ℕ) × (reserved : Bytes) × (length (zeros 16) ≡ 16)
    × (length reserved ≡ 8)
    × (length (zeros 24) ≡ 24)
    × (sent ≡ response_bytes 7 high low (zeros 16) reserved (zeros 24) 0 (text "anna"))
unfolding parse_response with_flags
response_bytes-parse_response_example = response_bytes-parse_response sent sent_response refl

abbrev seven : Bytes
seven = 1 ∷ 2 ∷ 3 ∷ 4 ∷ 5 ∷ 6 ∷ 7 ∷ []

des_key_from_seven-injective_example : seven ≡ seven
des_key_from_seven-injective_example =
    des_key_from_seven-injective 1 2 3 4 5 6 7 1 2 3 4 5 6 7 seven_IsBytes seven_IsBytes refl
  where
    seven_IsBytes : IsBytes seven
    seven_IsBytes = (
      omega arith,
      (omega arith, (omega arith, (omega arith, (omega arith, (omega arith, (omega arith, tt)))))),
    )

-- Stand-ins: DES gives the challenge back, SHA-1 twenty bytes.
abbrev stand_ins : Primitives
stand_ins = record {
  md4 = λ m. take 16 (m ++ zeros 16);
  sha1 = λ m. take 20 (m ++ zeros 20);
  des = λ key block. some block;
}

abbrev nt_of_zeros : Bytes
nt_of_zeros = zeros 24

abbrev server_proof : Bytes
server_proof = text "S=0000000000000000000000000000000000000000"

abbrev anna : Subscriber
anna = record {
  id = 7;
  username = "anna";
  password_hash = [];
  status = "active";
  rate_limit_str = text "10M/2M";
  fup_active = false;
  fup_throttle = [];
  speed_override_rate_limit = text "50M/50M";
  speed_override_expires_at = none;
  plan_id = 3;
  nt_hash = zeros 16;
  volume_gb = 0;
}

abbrev eap_backend : EapBackend
eap_backend = record {
  backend = record {
    get_subscriber_by_username = λ u. if str_eq u "anna" then found anna else absent;
    authorize_mac = none;
    resolver = none;
    bcrypt_matches = bytes_eq;
    mac = λ s. s;
    new_vendor_specific = λ id s. some s;
  };
  primitives = stand_ins;
  as_text = λ s. if bytes_eq s (text "anna") then "anna" else "";
  takes_eap_message = λ m. true;
  takes_state = λ s. true;
}

verify_mschapv2_iff_example :
    (verify_mschapv2 stand_ins (zeros 16) (zeros 16) (zeros 16) nt_of_zeros (text "anna")
      ≡ verified server_proof)
    ↔ (IsNtResponse stand_ins (zeros 16) (zeros 16) (zeros 16) (text "anna") nt_of_zeros
        × IsAuthenticatorResponse stand_ins
            (zeros 16)
            (zeros 16)
            (zeros 16)
            (text "anna")
            nt_of_zeros
            server_proof)
verify_mschapv2_iff_example =
    verify_mschapv2_iff stand_ins (zeros 16) (zeros 16) (zeros 16) nt_of_zeros (text "anna")
      server_proof

abbrev fresh : EapState
fresh = record { guard = some []; eap_sessions = some [] }

abbrev ready : Random
ready = record { new_challenge = some (zeros 16); new_state = some "c0ffee" }

abbrev spent : Random
spent = record { new_challenge = none; new_state = none }

abbrev annas_device : Peer
annas_device = record {
  user_name = [];
  name = text "anna";
  id0 = 1;
  id1 = 2;
  id2 = 3;
  mschap_id = 1;
  high = 0;
  low = 59;
  flags = 0;
  peer = zeros 16;
  reserved = zeros 8;
  nt = nt_of_zeros;
  peer_name = text "anna";
  ack = 3 ∷ [];
}

abbrev identity_event : Event
identity_event = record {
  backend = eap_backend;
  now = 1;
  random = ready;
  request = peer_request "" [] (identity_packet eap_backend annas_device (zeros 16) "c0ffee");
}

abbrev response_event : Event
response_event = record {
  backend = eap_backend;
  now = 2;
  random = spent;
  request = peer_request "c0ffee" [] (response_packet eap_backend annas_device (zeros 16) "c0ffee");
}

abbrev ack_event : Event
ack_event = record {
  backend = eap_backend;
  now = 3;
  random = spent;
  request = peer_request "c0ffee" [] (ack_packet eap_backend annas_device (zeros 16) "c0ffee");
}

abbrev final_session : EapSession
final_session = answered_session eap_backend annas_device (zeros 16) "c0ffee" server_proof

abbrev final_sessions : Sessions
final_sessions = after_answer eap_backend annas_device (zeros 16) "c0ffee" 1 2 [] server_proof

abbrev before_ack : EapState
before_ack = answered eap_backend annas_device (zeros 16) "c0ffee" 1 2 fresh

honest_peer_accepted_example :
    ((handle_eap eap_backend 1 ready identity_event.request fresh).1
      ≡ some (
          eap_challenge "c0ffee" (
            encode (
              challenge_packet eap_backend
                (identity_packet eap_backend annas_device (zeros 16) "c0ffee")
                (zeros 16)))))
    × ((handle_eap eap_backend 2 spent response_event.request
          (challenged eap_backend annas_device (zeros 16) "c0ffee" 1 fresh)).1
        ≡ some (
            eap_challenge "c0ffee" (
              encode (
                success_packet eap_backend
                  (response_packet eap_backend annas_device (zeros 16) "c0ffee")
                  (response_read eap_backend annas_device (zeros 16) "c0ffee")
                  server_proof))))
    × (handle_eap eap_backend 3 spent ack_event.request before_ack ≡ (
      record {
        guard = reset "anna" (some []);
        eap_sessions = some (discard "c0ffee" final_sessions);
      },
      some (eap_accept anna (eap_attrs eap_backend anna) (encode (success_of final_session))),
    ))
unfolding response_bytes strip_domain check generate_nt_response challenge_response challenge_hash
    generate_authenticator_response des_key_from_seven authorises_service Counter.get
honest_peer_accepted_example =
    honest_peer_accepted eap_backend annas_device (zeros 16) "c0ffee" 1 2 3 [] fresh anna
      server_proof refl (λ m. refl) refl refl (omega arith) (omega arith) (omega arith)
      (omega arith) (omega arith) (omega arith) (omega arith) refl refl refl refl refl refl refl
      refl refl refl

accepted_at_last :
    (serve ack_event (serve response_event (serve identity_event fresh).0).0).1
    ≡ some (eap_accept anna (eap_attrs eap_backend anna) (encode (success_of final_session)))
unfolding response_bytes strip_domain check generate_nt_response challenge_response challenge_hash
    generate_authenticator_response des_key_from_seven authorises_service serve challenged answered
    Counter.get
accepted_at_last =
    ap (λ y. y.1)
      (honest_peer_accepted eap_backend annas_device (zeros 16) "c0ffee" 1 2 3 [] fresh anna
        server_proof refl (λ m. refl) refl refl (omega arith) (omega arith) (omega arith)
        (omega arith) (omega arith) (omega arith) (omega arith) refl refl refl refl refl refl refl
        refl refl refl).2

accept_proven_example :
    (e : Event) × (sess : EapSession) × Memᴰ e (response_event ∷ identity_event ∷ [])
    × IsProof "radius_eap:c0ffee" sess e
    × IsIssued (some []) (response_event ∷ identity_event ∷ []) "radius_eap:c0ffee" sess
    × (eap_backend.backend.get_subscriber_by_username (eap_backend.as_text sess.username)
        ≡ found anna)
accept_proven_example =
    accept_proven {g = some []} ack_event anna (eap_attrs eap_backend anna)
      (encode (success_of final_session))
      (Served.next response_event (Served.next identity_event Served.start)) accepted_at_last

accepted_once_example :
    (serve ack_event (serve ack_event (serve response_event (serve identity_event fresh).0).0).0).1
    ≢ some (eap_accept anna (eap_attrs eap_backend anna) (encode (success_of final_session)))
unfolding serve
accepted_once_example =
    accepted_once eap_backend eap_backend 3 3 spent spent ack_event.request ack_event.request
      (serve response_event (serve identity_event fresh).0).0 anna anna (eap_attrs eap_backend anna)
      (eap_attrs eap_backend anna) (encode (success_of final_session))
      (encode (success_of final_session)) accepted_at_last refl

eap_attrs-override_example :
    eap_attrs eap_backend anna
    ≡ apply_rate_limit eap_backend.backend 5 (record anna { speed_override_rate_limit = [] })
eap_attrs-override_example = eap_attrs-override eap_backend 5 anna
