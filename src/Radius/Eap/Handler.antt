-- ===== src/Radius/Eap/Handler.antt =====
-- internal/radius/eap_handler.go: the conversations. Metrics and log lines are left out, and so is the
-- message authenticator, which every reply carries.
use isp.Common.{
  ℕ, ◌+◌, ◌%◌, String, str_eq, not, ◌&&◌, Option, none, some, List, [], ◌==◌, if◌then◌else◌,
}
use isp.Common.Clock.{Time}
use isp.Common.Bytes.{Bytes, text}
use isp.Nas.Attributes.{mikrotik, Attr, build_accept_attrs, is_empty}
use isp.Radius.BruteForce
use isp.Radius.BruteForce.{Guard, record_failure, reset}
use isp.Radius.Auth.{Subscriber, Fetched, failed, absent, found, authorises_service}
use isp.Radius.Eap.Packet.{
  EapPacket, parsed, parse_eap, encode, encode_challenge, encode_success, parse_response, response,
  Response, code_request, code_success, code_failure, type_identity, type_mschapv2, ParsedEap,
  ParsedResponse,
}
use isp.Radius.Eap.Mschap.{
  Verified, verified, no_nt_hash, bad_nt_response, cannot_hash, verify_mschapv2, strip_domain,
}
use isp.Radius.Eap.Session.{
  Stage, identity_requested, challenge_issued, awaiting_success_ack, EapSession, Sessions, save,
  load, discard, EapRequest, Random, EapBackend, EapReply, eap_accept, eap_challenge, eap_reject,
  EapState, set_sessions,
}

abbrev pub eap_server_name : Bytes
eap_server_name = text "isp-bss-oss"

module _ (b : EapBackend) where
  unfoldable pub write_eap_reject : ℕ → EapReply
  write_eap_reject id =
      let failure =
        encode (record { code = code_failure; identifier = id; type = 0; data_bytes = [] }) in
      eap_reject (if b.takes_eap_message failure then some failure else none)

  unfoldable pub write_eap_challenge : String → EapPacket → EapReply
  write_eap_challenge state pkt =
      if not (b.takes_eap_message (encode pkt))
      then write_eap_reject pkt.identifier
      else if not (b.takes_state state)
      then write_eap_reject pkt.identifier
      else eap_challenge state (encode pkt)

  -- `eapFail`, with the sessions that it finds.
  unfoldable pub eap_fail : ℕ → String → Sessions → EapState → EapState × EapReply
  eap_fail id state s d = (set_sessions (discard state s) d, write_eap_reject id)

  unfoldable pub identity_of : EapPacket → Bytes → Bytes
  identity_of pkt user_name = strip_domain (
      if pkt.type == type_identity && not (is_empty pkt.data_bytes)
      then pkt.data_bytes
      else user_name)

  abbrev pub challenge_session : EapPacket → Bytes → Bytes → EapSession
  challenge_session pkt username challenge = record {
    stage = challenge_issued;
    username = username;
    authenticator_challenge = challenge;
    peer_challenge = [];
    nt_response = [];
    mschapv2_id = 0;
    eap_identifier = (pkt.identifier + 1) % 256;
    authenticator_response = [];
  }

  abbrev pub challenge_packet : EapPacket → Bytes → EapPacket
  challenge_packet pkt challenge = record {
    code = code_request;
    identifier = (pkt.identifier + 1) % 256;
    type = type_mschapv2;
    data_bytes =
        encode_challenge
          (record { id = pkt.identifier; challenge = challenge; name = eap_server_name });
  }

  unfoldable pub eap_start :
      Time → Random → Bytes → EapPacket → Sessions → EapState → EapState × EapReply
  eap_start now random user_name pkt s d =
      let username = identity_of pkt user_name in
      if is_empty username
      then (d, write_eap_reject pkt.identifier)
      else if (BruteForce.check now (b.as_text username) d.guard).0
      then (d, write_eap_reject pkt.identifier)
      else elim random.new_challenge [
        | none ↦ (d, write_eap_reject pkt.identifier)
        | some challenge ↦ elim random.new_state [
          | none ↦ (d, write_eap_reject pkt.identifier)
          | some state ↦ (
            set_sessions (save now state (challenge_session pkt username challenge) s) d,
            write_eap_challenge state (challenge_packet pkt challenge),
          )
        ]
      ]

  abbrev pub verified_session : EapPacket → Response → Bytes → EapSession → EapSession
  verified_session pkt resp authenticator_response sess = record sess {
    stage = awaiting_success_ack;
    peer_challenge = resp.peer_challenge;
    nt_response = resp.nt_response;
    mschapv2_id = resp.id;
    eap_identifier = (pkt.identifier + 1) % 256;
    authenticator_response = authenticator_response;
  }

  abbrev pub success_packet : EapPacket → Response → Bytes → EapPacket
  success_packet pkt resp authenticator_response = record {
    code = code_request;
    identifier = (pkt.identifier + 1) % 256;
    type = type_mschapv2;
    data_bytes = encode_success resp.id authenticator_response;
  }

  -- `recordAuthFailure`
  abbrev pub with_failure : Time → Bytes → EapState → EapState
  with_failure now username d = record d { guard = record_failure now (b.as_text username) d.guard }

  -- What follows the check of the response.
  unfoldable pub verified_reply :
      Time
      → EapPacket
      → String
      → Response
      → EapSession
      → Verified
      → Sessions
      → EapState
      → EapState × EapReply
  verified_reply now pkt state resp sess no_nt_hash s d = eap_fail pkt.identifier state s d
  verified_reply now pkt state resp sess bad_nt_response s d =
      eap_fail pkt.identifier state s (with_failure now sess.username d)
  verified_reply now pkt state resp sess cannot_hash s d =
      eap_fail pkt.identifier state s (with_failure now sess.username d)
  verified_reply now pkt state resp sess (verified a) s d = (
    set_sessions (save now state (verified_session pkt resp a sess) s) d,
    write_eap_challenge state (success_packet pkt resp a),
  )

  unfoldable pub subscriber_reply :
      Time
      → EapPacket
      → String
      → Response
      → EapSession
      → Fetched Subscriber
      → Sessions
      → EapState
      → EapState × EapReply
  subscriber_reply now pkt state resp sess failed s d =
      eap_fail pkt.identifier state s (with_failure now sess.username d)
  subscriber_reply now pkt state resp sess absent s d =
      eap_fail pkt.identifier state s (with_failure now sess.username d)
  subscriber_reply now pkt state resp sess (found sub) s d =
      if not (authorises_service sub.status)
      then eap_fail pkt.identifier state s d
      else verified_reply now pkt state resp sess
          (verify_mschapv2 b.primitives sub.nt_hash sess.authenticator_challenge resp.peer_challenge
            resp.nt_response sess.username)
          s d

  unfoldable pub response_reply :
      Time
      → EapPacket
      → String
      → EapSession
      → ParsedResponse
      → Sessions
      → EapState
      → EapState × EapReply
  response_reply now pkt state sess (response resp) s d =
      subscriber_reply now pkt state resp sess
        (b.backend.get_subscriber_by_username (b.as_text sess.username)) s d
  response_reply now pkt state sess _ s d = eap_fail pkt.identifier state s d

  unfoldable pub eap_verify_response :
      Time → EapPacket → String → EapSession → Sessions → EapState → EapState × EapReply
  eap_verify_response now pkt state sess s d =
      response_reply now pkt state sess (parse_response pkt.data_bytes) s d

  abbrev pub rate_limit_of : Subscriber → Bytes
  rate_limit_of sub =
      if sub.fup_active && not (is_empty sub.fup_throttle)
      then sub.fup_throttle
      else sub.rate_limit_str

  -- The bandwidth attributes: none where the vendor's builder fails.
  unfoldable pub eap_attrs : Subscriber → List Attr
  eap_attrs sub =
      let attrs : Option (List Attr) = elim b.backend.resolver [
        | none ↦
            build_accept_attrs b.backend.new_vendor_specific mikrotik
              (record { rate_limit_string = rate_limit_of sub; profile_name = [] })
        | some (device, profile) ↦
            build_accept_attrs b.backend.new_vendor_specific device.vendor (record {
              rate_limit_string = rate_limit_of sub;
              profile_name = profile sub.plan_id device.vendor;
            })
      ] in
      elim attrs [ none ↦ [] | some l ↦ l ]

  unfoldable pub eap_accepted : EapSession → Fetched Subscriber → EapState → EapState × EapReply
  eap_accepted sess failed d = (d, write_eap_reject sess.eap_identifier)
  eap_accepted sess absent d = (d, write_eap_reject sess.eap_identifier)
  eap_accepted sess (found sub) d =
      let success = encode (record {
        code = code_success;
        identifier = sess.eap_identifier;
        type = 0;
        data_bytes = [];
      }) in
      (
        record d { guard = reset (b.as_text sess.username) d.guard },
        if b.takes_eap_message success
            then eap_accept sub (eap_attrs sub) success
            else write_eap_reject sess.eap_identifier,
      )

  unfoldable pub eap_finish : String → EapSession → Sessions → EapState → EapState × EapReply
  eap_finish state sess s d =
      eap_accepted sess (b.backend.get_subscriber_by_username (b.as_text sess.username))
        (set_sessions (discard state s) d)

  -- The `switch` on the stage of the conversation.
  unfoldable pub eap_at_stage :
      Time → EapPacket → String → EapSession → Sessions → EapState → Stage → EapState × EapReply
  eap_at_stage now pkt state sess s d challenge_issued = eap_verify_response now pkt state sess s d
  eap_at_stage now pkt state sess s d awaiting_success_ack = eap_finish state sess s d
  eap_at_stage now pkt state sess s d identity_requested = eap_fail pkt.identifier state s d

  unfoldable pub eap_continue :
      Time → EapPacket → String → Option EapSession → Sessions → EapState → EapState × EapReply
  eap_continue now pkt state none s d = (d, write_eap_reject pkt.identifier)
  eap_continue now pkt state (some sess) s d = eap_at_stage now pkt state sess s d sess.stage

  unfoldable pub eap_parsed :
      Time → Random → EapRequest → ParsedEap → Sessions → EapState → EapState × EapReply
  eap_parsed now random r (parsed pkt) s d =
      if str_eq r.state ""
      then eap_start now random r.user_name pkt s d
      else eap_continue now pkt r.state (load now r.state s) s d
  eap_parsed now random r _ s d = (d, write_eap_reject 0)

  -- With the sessions, `none` where EAP is not configured.
  unfoldable pub eap_answer :
      Time → Random → EapRequest → Option Sessions → EapState → EapState × EapReply
  eap_answer now random r none d = (d, write_eap_reject 0)
  eap_answer now random r (some s) d = eap_parsed now random r (parse_eap r.eap_message) s d

  -- `handleEAP`; `none` where it leaves the packet to PAP.
  unfoldable pub handle_eap : Time → Random → EapRequest → EapState → EapState × Option EapReply
  handle_eap now random r d =
      let answer = eap_answer now random r d.eap_sessions d in
      if is_empty r.eap_message then (d, none) else (answer.0, some answer.1)
