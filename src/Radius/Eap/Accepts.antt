-- ===== src/Radius/Eap/Accepts.antt =====
-- eap_handler.go: where an accept comes from, and what it leaves.
use mathlib.Core.Path.{subst}
use isp.Common.{
  some_injective, ℕ, ◌≡◌, ◌≢◌, refl, sym, ap, ◌∙◌, inl, inr, String, str_eq, eq_iff, Option, none,
  some, List, [], arith, Bool-cases, Option-cases,
}
use isp.Common.Clock.{Time}
use isp.Common.Bytes.{Bytes}
use isp.Localcache.Store.Reads.{get-delete}
use isp.Nas.Attributes.{Attr, is_empty}
use isp.Radius.BruteForce.{check}
use isp.Radius.Auth.{Subscriber, Fetched, failed, absent, found, authorises_service}
use isp.Radius.Eap.Packet.{
  code_success, EapPacket, ParsedEap, parsed, short_eap, length_mismatch, parse_eap, ParsedResponse,
  response, Response, too_short, not_a_response, bad_value_size, truncated, parse_response, encode,
}
use isp.Radius.Eap.Mschap.{
  Verified, verified, no_nt_hash, bad_nt_response, cannot_hash, verify_mschapv2,
}
use isp.Radius.Eap.Session.{
  Stage, challenge_issued, awaiting_success_ack, identity_requested, EapSession, Sessions,
  eap_session_key, load, discard, EapRequest, Random, EapBackend, eap_accept, EapState,
  set_sessions,
}
use isp.Radius.Eap.Handler.{
  write_eap_reject, write_eap_challenge, identity_of, eap_start, eap_verify_response, eap_finish,
  eap_fail, eap_at_stage, eap_continue, eap_parsed, eap_answer, handle_eap, verified_reply,
  subscriber_reply, response_reply, eap_accepted, eap_attrs, success_packet, challenge_packet,
}

accepted_attrs :
    {u sub : Subscriber} {x attrs : List Attr} {n m : Bytes}
    → eap_accept u x n ≡ eap_accept sub attrs m
    → x ≡ attrs
accepted_attrs h = cc

abbrev success_of : EapSession → EapPacket
success_of sess = record {
  code = code_success;
  identifier = sess.eap_identifier;
  type = 0;
  data_bytes = [];
}

module _ (b : EapBackend) (sub : Subscriber) (attrs : List Attr) (m : Bytes) where
  reject_ne : (id : ℕ) → write_eap_reject b id ≢ eap_accept sub attrs m
  unfolding write_eap_reject
  reject_ne id h = cc

  challenge_ne :
      (state : String) (pkt : EapPacket) → write_eap_challenge b state pkt ≢ eap_accept sub attrs m
  unfolding write_eap_challenge
  challenge_ne state pkt h = elim (Bool-cases (b.takes_eap_message (encode pkt))) [
    | inr e ↦ reject_ne pkt.identifier (ground (arith, h, e))
    | inl e ↦ elim (Bool-cases (b.takes_state state)) [
      | inr f ↦ reject_ne pkt.identifier (ground (arith, h, e, f))
      | inl f ↦ ground (arith, h, e, f)
    ]
  ]

  fail_ne :
      (id : ℕ) (state : String) (s : Sessions) (d : EapState)
      → (eap_fail b id state s d).1 ≢ eap_accept sub attrs m
  unfolding eap_fail
  fail_ne id state s d h = reject_ne id h

  module _ (now : Time) (pkt : EapPacket) (state : String) (sess : EapSession) (s : Sessions) where
    verified_ne :
        (resp : Response) (v : Verified) (d : EapState)
        → (verified_reply b now pkt state resp sess v s d).1 ≢ eap_accept sub attrs m
    unfolding verified_reply eap_fail
    verified_ne resp no_nt_hash d h = fail_ne pkt.identifier state s d h
    verified_ne resp bad_nt_response d h = fail_ne pkt.identifier state s d h
    verified_ne resp cannot_hash d h = fail_ne pkt.identifier state s d h
    verified_ne resp (verified a) d h = challenge_ne state (success_packet b pkt resp a) h

    subscriber_ne :
        (resp : Response) (f : Fetched Subscriber) (d : EapState)
        → (subscriber_reply b now pkt state resp sess f s d).1 ≢ eap_accept sub attrs m
    unfolding subscriber_reply eap_fail
    subscriber_ne resp failed d h = fail_ne pkt.identifier state s d h
    subscriber_ne resp absent d h = fail_ne pkt.identifier state s d h
    subscriber_ne resp (found u) d h = elim (Bool-cases (authorises_service u.status)) [
      | inl e ↦
          verified_ne resp
            (verify_mschapv2 b.primitives u.nt_hash sess.authenticator_challenge resp.peer_challenge
              resp.nt_response sess.username)
            d (ground (arith, h, e))
      | inr e ↦ fail_ne pkt.identifier state s d (ground (arith, h, e))
    ]

    response_ne :
        (r : ParsedResponse) (d : EapState)
        → (response_reply b now pkt state sess r s d).1 ≢ eap_accept sub attrs m
    unfolding response_reply
    response_ne (response resp) d h =
        subscriber_ne resp (b.backend.get_subscriber_by_username (b.as_text sess.username)) d h
    response_ne too_short d h = fail_ne pkt.identifier state s d h
    response_ne not_a_response d h = fail_ne pkt.identifier state s d h
    response_ne bad_value_size d h = fail_ne pkt.identifier state s d h
    response_ne truncated d h = fail_ne pkt.identifier state s d h

    accepted-found :
        (f : Fetched Subscriber) (d : EapState)
        → (eap_accepted b sess f d).1 ≡ eap_accept sub attrs m
        → (f ≡ found sub)
          × (attrs ≡ eap_attrs b sub)
          × ((eap_accepted b sess f d).0.eap_sessions ≡ d.eap_sessions)
    unfolding eap_accepted
    accepted-found failed d h = absurd (reject_ne sess.eap_identifier h)
    accepted-found absent d h = absurd (reject_ne sess.eap_identifier h)
    accepted-found (found u) d h =
        elim (Bool-cases (b.takes_eap_message (encode (success_of sess)))) [
          | inr e ↦ absurd (reject_ne sess.eap_identifier (ground (arith, h, e)))
          | inl e ↦
              let same : eap_accept u (eap_attrs b u) (encode (success_of sess))
                  ≡ eap_accept sub attrs m =
                ground (arith, h, e) in
              let u_is : u ≡ sub = cc in
              (ap found u_is, sym (accepted_attrs same) ∙ ap (eap_attrs b) u_is, refl)
        ]

    -- What an accept says of the conversation and the database.
    stage-accepted :
        (g : Stage) (d : EapState)
        → (eap_at_stage b now pkt state sess s d g).1 ≡ eap_accept sub attrs m
        → (g ≡ awaiting_success_ack)
          × (b.backend.get_subscriber_by_username (b.as_text sess.username) ≡ found sub)
          × (attrs ≡ eap_attrs b sub)
          × ((eap_at_stage b now pkt state sess s d g).0.eap_sessions ≡ some (discard state s))
    unfolding eap_at_stage eap_verify_response eap_finish
    stage-accepted challenge_issued d h = absurd (response_ne (parse_response pkt.data_bytes) d h)
    stage-accepted identity_requested d h = absurd (fail_ne pkt.identifier state s d h)
    stage-accepted awaiting_success_ack d h =
        let (f, a, after) =
          accepted-found (b.backend.get_subscriber_by_username (b.as_text sess.username))
            (set_sessions (discard state s) d) h in
        (refl, f, a, after)

  module _ (now : Time) (random : Random) (r : EapRequest) (s : Sessions) where
    start_ne :
        (pkt : EapPacket) (d : EapState)
        → (eap_start b now random r.user_name pkt s d).1 ≢ eap_accept sub attrs m
    unfolding eap_start
    start_ne pkt d h =
        let username = identity_of b pkt r.user_name in
        elim (Bool-cases (is_empty username)) [
          | inl c ↦ reject_ne pkt.identifier (ground (arith, h, c))
          | inr c ↦ elim (Bool-cases (check now (b.as_text username) d.guard).0) [
            | inl k ↦ reject_ne pkt.identifier (ground (arith, h, c, k))
            | inr k ↦ elim (Option-cases random.new_challenge) [
              | inl n ↦ reject_ne pkt.identifier (ground (arith, h, c, k, n))
              | inr (challenge, n) ↦ elim (Option-cases random.new_state) [
                | inl o ↦ reject_ne pkt.identifier (ground (arith, h, c, k, n, o))
                | inr (state, o) ↦
                    challenge_ne state (challenge_packet b pkt challenge)
                      (ground (arith, h, c, k, n, o))
              ]
            ]
          ]
        ]

    -- The conversation of the request's State awaited its acknowledgement, and is gone.
    abbrev pub IsAccepted : Option Sessions → Type 0
    IsAccepted after =
        (sess : EapSession) × (load now r.state s ≡ some sess)
        × (sess.stage ≡ awaiting_success_ack)
        × (b.backend.get_subscriber_by_username (b.as_text sess.username) ≡ found sub)
        × (attrs ≡ eap_attrs b sub)
        × (after ≡ some (discard r.state s))

    continue-IsAccepted :
        (pkt : EapPacket) (o : Option EapSession) (d : EapState)
        → load now r.state s ≡ o
        → (eap_continue b now pkt r.state o s d).1 ≡ eap_accept sub attrs m
        → IsAccepted (eap_continue b now pkt r.state o s d).0.eap_sessions
    unfolding eap_continue
    continue-IsAccepted pkt none d l h = absurd (reject_ne pkt.identifier h)
    continue-IsAccepted pkt (some sess) d l h =
        let (g, f, a, after) = stage-accepted now pkt r.state sess s sess.stage d h in
        (sess, l, g, f, a, after)

    parsed-IsAccepted :
        (pe : ParsedEap) (d : EapState)
        → (eap_parsed b now random r pe s d).1 ≡ eap_accept sub attrs m
        → IsAccepted (eap_parsed b now random r pe s d).0.eap_sessions
    unfolding eap_parsed
    parsed-IsAccepted short_eap d h = absurd (reject_ne 0 h)
    parsed-IsAccepted (length_mismatch x y) d h = absurd (reject_ne 0 h)
    parsed-IsAccepted (parsed pkt) d h = elim (Bool-cases (str_eq r.state "")) [
      | inl c ↦ absurd (start_ne pkt d (ground (arith, h, c)))
      | inr c ↦
          let step : eap_parsed b now random r (parsed pkt) s d
              ≡ eap_continue b now pkt r.state (load now r.state s) s d =
            rw (eap_parsed, c) refl in
          subst (λ y. IsAccepted y.0.eap_sessions) (sym step)
            (continue-IsAccepted pkt (load now r.state s) d refl (ap (λ y. y.1) (sym step) ∙ h))
    ]

  answer-IsAccepted :
      (now : Time) (random : Random) (r : EapRequest) (o : Option Sessions) (d : EapState)
      → (eap_answer b now random r o d).1 ≡ eap_accept sub attrs m
      → (s : Sessions) × (o ≡ some s)
        × IsAccepted now random r s (eap_answer b now random r o d).0.eap_sessions
  unfolding eap_answer
  answer-IsAccepted now random r none d h = absurd (reject_ne 0 h)
  answer-IsAccepted now random r (some s) d h =
      (s, refl, parsed-IsAccepted now random r s (parse_eap r.eap_message) d h)

  -- Behind an accept there is a conversation that awaited its acknowledgement, and that is gone.
  pub handle_eap-IsAccepted :
      (now : Time) (random : Random) (r : EapRequest) (d : EapState)
      → (handle_eap b now random r d).1 ≡ some (eap_accept sub attrs m)
      → (s : Sessions) × (d.eap_sessions ≡ some s)
        × IsAccepted now random r s (handle_eap b now random r d).0.eap_sessions
  unfolding handle_eap
  handle_eap-IsAccepted now random r d h = elim (Bool-cases (is_empty r.eap_message)) [
    | inl c ↦ ground (arith, h, c)
    | inr c ↦
        let answer = eap_answer b now random r d.eap_sessions d in
        let step : handle_eap b now random r d ≡ (answer.0, some answer.1) =
          rw (handle_eap, c) refl in
        let reply : some answer.1 ≡ some (eap_accept sub attrs m) = ap (λ y. y.1) (sym step) ∙ h in
        let (s, o, x) = answer-IsAccepted now random r d.eap_sessions d (some_injective reply) in
        (s, o, subst (λ y. IsAccepted now random r s y.0.eap_sessions) (sym step) x)
  ]

load-discard :
    (now : Time) (state : String) (s : Sessions) → load now state (discard state s) ≡ none
unfolding load discard
load-discard now state s = ground (
  arith,
  get-delete now (eap_session_key state) (eap_session_key state) s,
  eq_iff (eap_session_key state) (eap_session_key state),
)

-- A conversation is accepted once: the next request with the same State, whenever it comes and
-- whatever else it holds, is not accepted.
pub accepted_once :
    (b b' : EapBackend) (now later : Time) (random random' : Random) (r r' : EapRequest)
    (d : EapState) (sub sub' : Subscriber) (attrs attrs' : List Attr) (m m' : Bytes)
    → (handle_eap b now random r d).1 ≡ some (eap_accept sub attrs m)
    → r'.state ≡ r.state
    → (handle_eap b' later random' r' (handle_eap b now random r d).0).1
      ≢ some (eap_accept sub' attrs' m')
accepted_once b b' now later random random' r r' d sub sub' attrs attrs' m m' h same h' =
    let (s, o, (sess, l, g, f, a, after)) = handle_eap-IsAccepted b sub attrs m now random r d h in
    let (s', o', (sess', l', g', f', a', after')) =
      handle_eap-IsAccepted b' sub' attrs' m' later random' r' (handle_eap b now random r d).0 h' in
    let s'_is : discard r.state s ≡ s' = some_injective (sym after ∙ o') in
    let gone = load-discard later r.state s in
    let there : load later r.state (discard r.state s) ≡ some sess' =
      subst (λ t. load later r.state t ≡ some sess') (sym s'_is)
        (subst (λ t. load later t s' ≡ some sess') same l') in
    cc
