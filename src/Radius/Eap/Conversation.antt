-- ===== src/Radius/Eap/Conversation.antt =====
-- eap_handler.go: a whole conversation, from the identity to the accept.
use isp.Common.{
  ℕ, ◌+◌, ◌≤◌, ◌<◌, ◌≡◌, ◌≢◌, refl, ap, ◌∙◌, String, str_eq, true, false, none, some, [], ◌∷◌,
  arith,
}
use isp.Common.Clock.{Time}
use isp.Common.Bytes.{Bytes, length}
use isp.Nas.Attributes.{is_empty}
use isp.Radius.BruteForce.{check, reset}
use isp.Radius.Auth.{Subscriber, found, authorises_service}
use isp.Radius.Eap.Packet.{EapPacket, encode, code_response, type_identity, type_mschapv2, Response}
use isp.Radius.Eap.RoundTrip.{parse_eap-encode, response_bytes, parse_response-response_bytes}
use isp.Radius.Eap.Mschap.{
  verified, verify_mschapv2, strip_domain, generate_nt_response, generate_authenticator_response,
}
use isp.Radius.Eap.Keys.{verify_mschapv2-generated}
use isp.Radius.Eap.Session.{
  challenge_issued, awaiting_success_ack, EapSession, Sessions, eap_session_ttl, save, load,
  discard, EapRequest, Random, EapBackend, eap_accept, eap_challenge, EapState, set_sessions,
}
use isp.Radius.Eap.Handler.{
  identity_of, challenge_session, challenge_packet, verified_session, success_packet, eap_at_stage,
  handle_eap, eap_attrs, write_eap_challenge,
}
use isp.Radius.Eap.Steps.{
  success_of, handle_eap-parsed, handle_eap-continue, start-challenges, stage-verifies,
  stage-accepts, write_eap_challenge-taken, load-save, encode-not_empty,
}

-- A message of the peer.
abbrev pub peer_packet : ℕ → ℕ → Bytes → EapPacket
peer_packet id type data_bytes = record {
  code = code_response;
  identifier = id;
  type = type;
  data_bytes = data_bytes;
}

abbrev pub peer_request : String → Bytes → EapPacket → EapRequest
peer_request state user_name pkt = record {
  eap_message = encode pkt;
  state = state;
  user_name = user_name;
}

empty_stays : is_empty (strip_domain []) ≢ false
unfolding strip_domain
empty_stays h = cc

identity_of-name :
    (b : EapBackend) (id : ℕ) (name user_name : Bytes)
    → is_empty (strip_domain name) ≡ false
    → identity_of b (peer_packet id type_identity name) user_name ≡ strip_domain name
unfolding identity_of
identity_of-name b id [] user_name h = absurd (empty_stays h)
identity_of-name b id (c ∷ name) user_name h = refl

-- What a peer sends: its names, the identifiers of its three packets, the parts of its response and
-- the bytes of its acknowledgement.
pub record Peer : Type 0 where
  pub user_name : Bytes
  pub name : Bytes
  pub id0 : ℕ
  pub id1 : ℕ
  pub id2 : ℕ
  pub mschap_id : ℕ
  pub high : ℕ
  pub low : ℕ
  pub flags : ℕ
  pub peer : Bytes
  pub reserved : Bytes
  pub nt : Bytes
  pub peer_name : Bytes
  pub ack : Bytes

module _ (b : EapBackend) (v : Peer) (challenge : Bytes) (state : String) where
  abbrev pub identity_packet : EapPacket
  identity_packet = peer_packet v.id0 type_identity v.name

  abbrev pub response_packet : EapPacket
  response_packet =
      peer_packet v.id1 type_mschapv2
        (response_bytes v.mschap_id v.high v.low v.peer v.reserved v.nt v.flags v.peer_name)

  abbrev pub response_read : Response
  response_read = record {
    id = v.mschap_id;
    peer_challenge = v.peer;
    nt_response = v.nt;
    flags = v.flags;
    name = v.peer_name;
  }

  abbrev pub ack_packet : EapPacket
  ack_packet = peer_packet v.id2 type_mschapv2 v.ack

  -- The state after the identity, and after the response.
  unfoldable pub challenged : Time → EapState → EapState
  challenged now d =
      (handle_eap b now (record { new_challenge = some challenge; new_state = some state })
        (peer_request "" v.user_name identity_packet) d).0

  unfoldable pub answered : Time → Time → EapState → EapState
  answered now now' d =
      (handle_eap b now' (record { new_challenge = none; new_state = none })
        (peer_request state v.user_name response_packet) (challenged now d)).0

  -- The conversation that awaits its acknowledgement, and the sessions with it.
  abbrev pub answered_session : Bytes → EapSession
  answered_session a =
      verified_session b response_packet response_read a
        (challenge_session b identity_packet (strip_domain v.name) challenge)

  abbrev pub after_answer : Time → Time → Sessions → Bytes → Sessions
  after_answer now now' s a =
      save now' state (answered_session a)
        (save now state (challenge_session b identity_packet (strip_domain v.name) challenge) s)

  first_step :
      (now : Time) (s : Sessions) (d : EapState)
      → d.eap_sessions ≡ some s
      → 5 + length v.name < 65536
      → is_empty (strip_domain v.name) ≡ false
      → (check now (b.as_text (strip_domain v.name)) d.guard).0 ≡ false
      → handle_eap b now
          (record { new_challenge = some challenge; new_state = some state })
          (peer_request "" v.user_name identity_packet)
          d
        ≡ (
          set_sessions
              (save now state
                (challenge_session b identity_packet (strip_domain v.name) challenge)
                s)
              d,
          some (write_eap_challenge b state (challenge_packet b identity_packet challenge)),
        )
  first_step now s d o short named free =
      let random : Random = record { new_challenge = some challenge; new_state = some state } in
      let r = peer_request "" v.user_name identity_packet in
      handle_eap-parsed b now random r identity_packet s d o (encode-not_empty identity_packet)
        (parse_eap-encode identity_packet short)
      ∙ ap (λ t. (t.0, some t.1))
          (start-challenges b now random r identity_packet s d (strip_domain v.name) challenge state
            refl (identity_of-name b v.id0 v.name v.user_name named) named free refl refl)

  second_step :
      (now : Time) (sess : EapSession) (s : Sessions) (d : EapState) (sub : Subscriber) (a : Bytes)
      → d.eap_sessions ≡ some s
      → 5 + length response_packet.data_bytes < 65536
      → str_eq state "" ≡ false
      → load now state s ≡ some sess
      → sess.stage ≡ challenge_issued
      → length v.peer ≡ 16
      → length v.reserved ≡ 8
      → length v.nt ≡ 24
      → b.backend.get_subscriber_by_username (b.as_text sess.username) ≡ found sub
      → authorises_service sub.status ≡ true
      → verify_mschapv2 b.primitives sub.nt_hash sess.authenticator_challenge v.peer v.nt
          sess.username
        ≡ verified a
      → handle_eap b now
          (record { new_challenge = none; new_state = none })
          (peer_request state v.user_name response_packet)
          d
        ≡ (
          set_sessions
              (save now state (verified_session b response_packet response_read a sess) s)
              d,
          some (write_eap_challenge b state (success_packet b response_packet response_read a)),
        )
  second_step now sess s d sub a o short named l g hp hr hn hf hs hv =
      let random : Random = record { new_challenge = none; new_state = none } in
      let r = peer_request state v.user_name response_packet in
      handle_eap-parsed b now random r response_packet s d o (encode-not_empty response_packet)
        (parse_eap-encode response_packet short)
      ∙ ap (λ t. (t.0, some t.1))
          (handle_eap-continue b now random r response_packet sess s d named l
            ∙ ap (eap_at_stage b now response_packet state sess s d) g
            ∙ stage-verifies b now response_packet state sess s d sub response_read a
                (parse_response-response_bytes v.mschap_id v.high v.low v.flags v.peer v.reserved
                  v.nt v.peer_name hp hr hn)
                hf hs hv)

  third_step :
      (now : Time) (sess : EapSession) (s : Sessions) (d : EapState) (sub : Subscriber)
      → d.eap_sessions ≡ some s
      → 5 + length v.ack < 65536
      → str_eq state "" ≡ false
      → load now state s ≡ some sess
      → sess.stage ≡ awaiting_success_ack
      → b.backend.get_subscriber_by_username (b.as_text sess.username) ≡ found sub
      → b.takes_eap_message (encode (success_of sess)) ≡ true
      → handle_eap b now
          (record { new_challenge = none; new_state = none })
          (peer_request state v.user_name ack_packet)
          d
        ≡ (
          record {
            guard = reset (b.as_text sess.username) d.guard;
            eap_sessions = some (discard state s);
          },
          some (eap_accept sub (eap_attrs b sub) (encode (success_of sess))),
        )
  third_step now sess s d sub o short named l g hf ht =
      let random : Random = record { new_challenge = none; new_state = none } in
      let r = peer_request state v.user_name ack_packet in
      handle_eap-parsed b now random r ack_packet s d o (encode-not_empty ack_packet)
        (parse_eap-encode ack_packet short)
      ∙ ap (λ t. (t.0, some t.1))
          (handle_eap-continue b now random r ack_packet sess s d named l
            ∙ ap (eap_at_stage b now ack_packet state sess s d) g
            ∙ stage-accepts b now ack_packet state sess s d sub hf ht)

  -- A peer with the right password gets in: not locked out, of a status that grants service, answering
  -- the challenge within a minute with the response that its enrolled hash gives, and acknowledging
  -- within a minute more. The first two replies are the challenge and the server's own proof; the
  -- third is the accept, which clears the failures and the conversation.
  pub honest_peer_accepted :
      (t0 t1 t2 : Time) (s : Sessions) (d : EapState) (sub : Subscriber) (a : Bytes)
      → d.eap_sessions ≡ some s
      → ((m : Bytes) → b.takes_eap_message m ≡ true)
      → b.takes_state state ≡ true
      → str_eq state "" ≡ false
      → 5 + length v.name < 65536
      → 5 + length response_packet.data_bytes < 65536
      → 5 + length v.ack < 65536
      → 0 < t0
      → t0 ≤ t1
      → t1 ≤ t0 + eap_session_ttl
      → t2 ≤ t1 + eap_session_ttl
      → is_empty (strip_domain v.name) ≡ false
      → (check t0 (b.as_text (strip_domain v.name)) d.guard).0 ≡ false
      → b.backend.get_subscriber_by_username (b.as_text (strip_domain v.name)) ≡ found sub
      → authorises_service sub.status ≡ true
      → is_empty sub.nt_hash ≡ false
      → length v.peer ≡ 16
      → length v.reserved ≡ 8
      → length v.nt ≡ 24
      → generate_nt_response b.primitives challenge v.peer (strip_domain v.name) sub.nt_hash
        ≡ some v.nt
      → generate_authenticator_response b.primitives sub.nt_hash v.nt v.peer challenge
          (strip_domain v.name)
        ≡ some a
      → ((handle_eap b t0
            (record { new_challenge = some challenge; new_state = some state })
            (peer_request "" v.user_name identity_packet)
            d).1
          ≡ some (eap_challenge state (encode (challenge_packet b identity_packet challenge))))
        × ((handle_eap b t1
              (record { new_challenge = none; new_state = none })
              (peer_request state v.user_name response_packet)
              (challenged t0 d)).1
            ≡ some
                (eap_challenge state (encode (success_packet b response_packet response_read a))))
        × (handle_eap b t2
              (record { new_challenge = none; new_state = none })
              (peer_request state v.user_name ack_packet)
              (answered t0 t1 d)
            ≡ (
              record {
                guard = reset (b.as_text (strip_domain v.name)) d.guard;
                eap_sessions = some (discard state (after_answer t0 t1 s a));
              },
              some (eap_accept sub (eap_attrs b sub) (encode (success_of (answered_session a)))),
            ))
  unfolding challenged answered
  honest_peer_accepted t0 t1 t2 s d sub a o takes takes_st named n0 n1 n2 pos le w1 w2 user free hf
        hs enrolled hp hr hn hg ha =
      let one = first_step t0 s d o n0 user free in
      let issued = challenge_session b identity_packet (strip_domain v.name) challenge in
      let s1 = save t0 state issued s in
      let verifies =
        (verify_mschapv2-generated b.primitives sub.nt_hash challenge v.peer v.nt
            (strip_domain v.name) a).1
          (enrolled, hg, ha) in
      let two =
        second_step t1 issued s1 (set_sessions s1 d) sub a refl n1 named
          (load-save t0 t1 state issued s pos w1) refl hp hr hn hf hs verifies in
      let three =
        third_step t2 (answered_session a) (after_answer t0 t1 s a)
          (set_sessions (after_answer t0 t1 s a) d) sub refl n2 named
          (load-save t1 t2 state (answered_session a) s1 (omega (arith, pos, le)) w2) refl hf
          (takes (encode (success_of (answered_session a)))) in
      let here : challenged t0 d ≡ set_sessions s1 d = ap (λ t. t.0) one in
      let next : answered t0 t1 d ≡ set_sessions (after_answer t0 t1 s a) d =
        ap
          (λ t.
            (handle_eap b t1 (record { new_challenge = none; new_state = none })
              (peer_request state v.user_name response_packet) t).0)
          here
        ∙ ap (λ t. t.0) two in
      (
        ap (λ t. t.1) one
            ∙ ap some (
                write_eap_challenge-taken b state (challenge_packet b identity_packet challenge)
                  takes takes_st),
        ap
              (λ t.
                (handle_eap b t1 (record { new_challenge = none; new_state = none })
                  (peer_request state v.user_name response_packet) t).1)
              here
            ∙ ap (λ t. t.1) two
            ∙ ap some (
                write_eap_challenge-taken b state (success_packet b response_packet response_read a)
                  takes takes_st),
        ap
              (λ t.
                handle_eap b t2 (record { new_challenge = none; new_state = none })
                  (peer_request state v.user_name ack_packet) t)
              next
            ∙ three,
      )
