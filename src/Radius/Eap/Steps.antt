-- ===== src/Radius/Eap/Steps.antt =====
-- eap_handler.go: what each step of a conversation does when all goes well.
use isp.Common.{
  ◌+◌, ◌≤◌, ◌<◌, ◌≡◌, refl, ap, ◌∙◌, inl, inr, String, str_eq, eq_iff, true, false, some, [], arith,
  Bool-cases,
}
use isp.Common.Clock.{Time}
use isp.Common.Bytes.{Bytes}
use isp.Localcache.Store.Reads.{get-set}
use isp.Nas.Attributes.{is_empty}
use isp.Radius.BruteForce.{check, reset}
use isp.Radius.Auth.{Subscriber, found, authorises_service}
use isp.Radius.Eap.Packet.{
  EapPacket, parsed, parse_eap, encode, is_header_only, code_success, Response, response,
  parse_response,
}
use isp.Radius.Eap.Mschap.{verified, verify_mschapv2}
use isp.Radius.Eap.Session.{
  challenge_issued, awaiting_success_ack, EapSession, Sessions, eap_session_key, eap_session_ttl,
  save, load, discard, EapRequest, Random, EapBackend, eap_accept, eap_challenge, EapState,
  set_sessions,
}
use isp.Radius.Eap.Handler.{
  identity_of, challenge_session, challenge_packet, verified_session, success_packet, eap_start,
  eap_at_stage, eap_continue, eap_parsed, eap_answer, eap_verify_response, eap_finish, handle_eap,
  verified_reply, subscriber_reply, response_reply, eap_accepted, eap_attrs, write_eap_challenge,
}

abbrev pub success_of : EapSession → EapPacket
success_of sess = record {
  code = code_success;
  identifier = sess.eap_identifier;
  type = 0;
  data_bytes = [];
}

module _ (b : EapBackend) (now : Time) (random : Random) (r : EapRequest) where
  -- What an answer to a well-formed message is.
  pub handle_eap-parsed :
      (pkt : EapPacket) (s : Sessions) (d : EapState)
      → d.eap_sessions ≡ some s
      → is_empty r.eap_message ≡ false
      → parse_eap r.eap_message ≡ parsed pkt
      → handle_eap b now random r d ≡ (
        (eap_parsed b now random r (parsed pkt) s d).0,
        some (eap_parsed b now random r (parsed pkt) s d).1,
      )
  unfolding handle_eap eap_answer
  handle_eap-parsed pkt s d o e p =
      let answer : eap_answer b now random r d.eap_sessions d
          ≡ eap_parsed b now random r (parsed pkt) s d =
        ap (λ t. eap_answer b now random r t d) o ∙ ap (λ t. eap_parsed b now random r t s d) p in
      let step : handle_eap b now random r d ≡ (
        (eap_answer b now random r d.eap_sessions d).0,
        some (eap_answer b now random r d.eap_sessions d).1,
      ) =
        rw (handle_eap, e) refl in
      step ∙ ap (λ t. (t.0, some t.1)) answer

  pub handle_eap-continue :
      (pkt : EapPacket) (sess : EapSession) (s : Sessions) (d : EapState)
      → str_eq r.state "" ≡ false
      → load now r.state s ≡ some sess
      → eap_parsed b now random r (parsed pkt) s d
        ≡ eap_at_stage b now pkt r.state sess s d sess.stage
  unfolding eap_parsed eap_continue
  handle_eap-continue pkt sess s d e l =
      let step : eap_parsed b now random r (parsed pkt) s d
          ≡ eap_continue b now pkt r.state (load now r.state s) s d =
        rw (eap_parsed, e) refl in
      step ∙ ap (λ t. eap_continue b now pkt r.state t s d) l

  pub start-challenges :
      (pkt : EapPacket) (s : Sessions) (d : EapState) (u challenge : Bytes) (state : String)
      → str_eq r.state "" ≡ true
      → identity_of b pkt r.user_name ≡ u
      → is_empty u ≡ false
      → (check now (b.as_text u) d.guard).0 ≡ false
      → random.new_challenge ≡ some challenge
      → random.new_state ≡ some state
      → eap_parsed b now random r (parsed pkt) s d ≡ (
        set_sessions (save now state (challenge_session b pkt u challenge) s) d,
        write_eap_challenge b state (challenge_packet b pkt challenge),
      )
  unfolding eap_parsed eap_start
  start-challenges pkt s d u challenge state e i c k n m = ground (arith, e, i, c, k, n, m)

module _ (b : EapBackend) (now : Time) (pkt : EapPacket) (state : String) (sess : EapSession)
    (s : Sessions) (d : EapState) (sub : Subscriber) where
  granted :
      (resp : Response)
      → authorises_service sub.status ≡ true
      → subscriber_reply b now pkt state resp sess (found sub) s d
        ≡ verified_reply b now pkt state resp sess
            (verify_mschapv2 b.primitives sub.nt_hash sess.authenticator_challenge
              resp.peer_challenge resp.nt_response sess.username)
            s
            d
  unfolding subscriber_reply
  granted resp hs = rw (subscriber_reply, hs) refl

  pub stage-verifies :
      (resp : Response) (a : Bytes)
      → parse_response pkt.data_bytes ≡ response resp
      → b.backend.get_subscriber_by_username (b.as_text sess.username) ≡ found sub
      → authorises_service sub.status ≡ true
      → verify_mschapv2 b.primitives sub.nt_hash sess.authenticator_challenge resp.peer_challenge
          resp.nt_response sess.username
        ≡ verified a
      → eap_at_stage b now pkt state sess s d challenge_issued ≡ (
        set_sessions (save now state (verified_session b pkt resp a sess) s) d,
        write_eap_challenge b state (success_packet b pkt resp a),
      )
  unfolding eap_at_stage eap_verify_response response_reply verified_reply
  stage-verifies resp a hr hf hs hv =
      ap (λ t. response_reply b now pkt state sess t s d) hr
      ∙ ap (λ t. subscriber_reply b now pkt state resp sess t s d) hf
      ∙ granted resp hs
      ∙ ap (λ t. verified_reply b now pkt state resp sess t s d) hv

  pub stage-accepts :
      b.backend.get_subscriber_by_username (b.as_text sess.username) ≡ found sub
      → b.takes_eap_message (encode (success_of sess)) ≡ true
      → eap_at_stage b now pkt state sess s d awaiting_success_ack ≡ (
        record {
          guard = reset (b.as_text sess.username) d.guard;
          eap_sessions = some (discard state s);
        },
        eap_accept sub (eap_attrs b sub) (encode (success_of sess)),
      )
  unfolding eap_at_stage eap_finish eap_accepted
  stage-accepts hf ht =
      ap (λ t. eap_accepted b sess t (set_sessions (discard state s) d)) hf
      ∙ rw (eap_accepted, ht) refl

pub write_eap_challenge-taken :
    (b : EapBackend) (state : String) (pkt : EapPacket)
    → ((m : Bytes) → b.takes_eap_message m ≡ true)
    → b.takes_state state ≡ true
    → write_eap_challenge b state pkt ≡ eap_challenge state (encode pkt)
unfolding write_eap_challenge
write_eap_challenge-taken b state pkt h k = rw (write_eap_challenge, h (encode pkt), k) refl

pub load-save :
    (t now : Time) (state : String) (sess : EapSession) (s : Sessions)
    → 0 < t
    → now ≤ t + eap_session_ttl
    → load now state (save t state sess s) ≡ some sess
unfolding load save
load-save t now state sess s h k = ground (
  arith,
  get-set t now (eap_session_key state) (eap_session_key state) sess eap_session_ttl s h,
  eq_iff (eap_session_key state) (eap_session_key state),
)

pub encode-not_empty : (p : EapPacket) → is_empty (encode p) ≡ false
unfolding encode
encode-not_empty p = elim (Bool-cases (is_header_only p.code)) [
  | inl e ↦ ground (arith, e)
  | inr e ↦ ground (arith, e)
]
