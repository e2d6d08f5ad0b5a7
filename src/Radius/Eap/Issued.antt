-- ===== src/Radius/Eap/Issued.antt =====
-- eap_handler.go: the challenge that a conversation keeps is one that the daemon sent for it.
use mathlib.Core.Path.{subst}
use mathlib.Core.List.{Memᴰ}
use isp.Common.{
  ℕ, ◌+◌, ◌≡◌, refl, sym, ap, ◌∙◌, inl, inr, String, str_eq, eq_iff, Option, none, some, List, ◌∷◌,
  arith, Bool-cases, Option-cases,
}
use isp.Common.Clock.{Time}
use isp.Common.Maps.{lookup, lookup-insert, lookup-erase}
use isp.Localcache.Store.{StoreEntry, set, delete}
use isp.Nas.Attributes.{is_empty}
use isp.Radius.BruteForce.{Guard, check}
use isp.Radius.Auth.{Subscriber, Fetched, failed, absent, found, authorises_service}
use isp.Radius.Eap.Packet.{
  too_short, not_a_response, bad_value_size, truncated, EapPacket, ParsedEap, parsed, short_eap,
  length_mismatch, parse_eap, ParsedResponse, response, Response, parse_response, encode_challenge,
}
use isp.Radius.Eap.Mschap.{
  Verified, no_nt_hash, bad_nt_response, cannot_hash, verified, verify_mschapv2,
}
use isp.Radius.Eap.Session.{
  eap_session_ttl, challenge_issued, identity_requested, Stage, awaiting_success_ack, EapSession,
  Sessions, eap_session_key, save, load, discard, EapState, set_sessions,
}
use isp.Radius.Eap.Handler.{
  eap_server_name, write_eap_challenge, eap_answer, eap_at_stage, identity_of, eap_start,
  eap_verify_response, eap_finish, eap_fail, eap_continue, eap_parsed, handle_eap, verified_reply,
  subscriber_reply, response_reply, eap_accepted, challenge_session, challenge_packet,
  verified_session,
}
use isp.Radius.Eap.Admission.{Event, serve, Served, load-entry}

-- An earlier request was answered, from a state that the daemon had reached, by `writeEAPChallenge` under
-- the State that has the key, with a packet that carries the session's challenge.
abbrev pub IsIssued : Guard → List Event → String → EapSession → Type 0
IsIssued g past key sess =
    (e : Event) × (older : List Event) × (d : EapState) × (state : String) × (pkt : EapPacket)
    × (id : ℕ) × Memᴰ e past
    × Served g older d
    × ((serve e d).1 ≡ some (write_eap_challenge e.backend state pkt))
    × (pkt.data_bytes
        ≡ encode_challenge
            (record { id = id; challenge = sess.authenticator_challenge; name = eap_server_name }))
    × (eap_session_key state ≡ key)

abbrev Keeps : (String → EapSession → Type 0) → Sessions → Type 0
Keeps P s = (key : String) (x : StoreEntry EapSession) → lookup key s ≡ some x → P key x.val

abbrev pub AllKeep : (String → EapSession → Type 0) → Option Sessions → Type 0
AllKeep P none = Unit
AllKeep P (some s) = Keeps P s

module _ (P : String → EapSession → Type 0) where
  save-Keeps :
      (now : Time) (state : String) (sess : EapSession) (s : Sessions)
      → P (eap_session_key state) sess
      → Keeps P s
      → Keeps P (save now state sess s)
  unfolding save set
  save-Keeps now state sess s new old key x found_x =
      let entry : StoreEntry EapSession = record { val = sess; expires = now + eap_session_ttl } in
      let at = sym (lookup-insert (eap_session_key state) key entry s) ∙ found_x in
      elim (Bool-cases (str_eq (eap_session_key state) key)) [
        | inl e ↦
            let same_key : eap_session_key state ≡ key =
              ground (arith, e, eq_iff (eap_session_key state) key) in
            let same : entry ≡ x = ground (arith, at, e) in
            subst (λ y. P key y.val) same (subst (λ k. P k sess) same_key new)
        | inr e ↦ old key x (ground (arith, at, e))
      ]

  discard-Keeps : (state : String) (s : Sessions) → Keeps P s → Keeps P (discard state s)
  unfolding discard delete
  discard-Keeps state s old key x found_x =
      let at = sym (lookup-erase (eap_session_key state) key s) ∙ found_x in
      elim (Bool-cases (str_eq (eap_session_key state) key)) [
        | inl e ↦ ground (arith, at, e)
        | inr e ↦ old key x (ground (arith, at, e))
      ]

  -- What a request keeps of the conversations, if it keeps it when a response verifies.
  module _ (e : Event) (s : Sessions) (old : Keeps P s)
      (verifies : (pkt : EapPacket) (resp : Response) (a : List ℕ) (key : String)
          (sess : EapSession)
        → P key sess
        → P key (verified_session e.backend pkt resp a sess)) where
    verified-Keeps :
        (pkt : EapPacket) (state : String) (resp : Response) (sess : EapSession) (v : Verified)
        (d : EapState)
        → P (eap_session_key state) sess
        → AllKeep P (verified_reply e.backend e.now pkt state resp sess v s d).0.eap_sessions
    unfolding verified_reply eap_fail
    verified-Keeps pkt state resp sess no_nt_hash d p = discard-Keeps state s old
    verified-Keeps pkt state resp sess bad_nt_response d p = discard-Keeps state s old
    verified-Keeps pkt state resp sess cannot_hash d p = discard-Keeps state s old
    verified-Keeps pkt state resp sess (verified a) d p =
        save-Keeps e.now state (verified_session e.backend pkt resp a sess) s
          (verifies pkt resp a (eap_session_key state) sess p) old

    subscriber-Keeps :
        (pkt : EapPacket) (state : String) (resp : Response) (sess : EapSession)
        (f : Fetched Subscriber) (d : EapState)
        → P (eap_session_key state) sess
        → AllKeep P (subscriber_reply e.backend e.now pkt state resp sess f s d).0.eap_sessions
    unfolding subscriber_reply eap_fail
    subscriber-Keeps pkt state resp sess failed d p = discard-Keeps state s old
    subscriber-Keeps pkt state resp sess absent d p = discard-Keeps state s old
    subscriber-Keeps pkt state resp sess (found sub) d p =
        elim (Bool-cases (authorises_service sub.status)) [
          | inl h ↦ rw h (
              verified-Keeps pkt state resp sess
                (verify_mschapv2 e.backend.primitives sub.nt_hash sess.authenticator_challenge
                  resp.peer_challenge resp.nt_response sess.username)
                d p)
          | inr h ↦ rw h (discard-Keeps state s old)
        ]

    response-Keeps :
        (pkt : EapPacket) (state : String) (sess : EapSession) (r : ParsedResponse) (d : EapState)
        → P (eap_session_key state) sess
        → AllKeep P (response_reply e.backend e.now pkt state sess r s d).0.eap_sessions
    unfolding response_reply eap_fail
    response-Keeps pkt state sess (response resp) d p =
        subscriber-Keeps pkt state resp sess
          (e.backend.backend.get_subscriber_by_username (e.backend.as_text sess.username)) d p
    response-Keeps pkt state sess too_short d p = discard-Keeps state s old
    response-Keeps pkt state sess not_a_response d p = discard-Keeps state s old
    response-Keeps pkt state sess bad_value_size d p = discard-Keeps state s old
    response-Keeps pkt state sess truncated d p = discard-Keeps state s old

    finish-Keeps :
        (state : String) (sess : EapSession) (f : Fetched Subscriber) (d : EapState)
        → AllKeep P
            (eap_accepted e.backend sess f (set_sessions (discard state s) d)).0.eap_sessions
    unfolding eap_accepted
    finish-Keeps state sess failed d = discard-Keeps state s old
    finish-Keeps state sess absent d = discard-Keeps state s old
    finish-Keeps state sess (found sub) d = discard-Keeps state s old

    stage-Keeps :
        (pkt : EapPacket) (state : String) (sess : EapSession) (g : Stage) (d : EapState)
        → P (eap_session_key state) sess
        → AllKeep P (eap_at_stage e.backend e.now pkt state sess s d g).0.eap_sessions
    unfolding eap_at_stage eap_verify_response eap_finish eap_fail
    stage-Keeps pkt state sess challenge_issued d p =
        response-Keeps pkt state sess (parse_response pkt.data_bytes) d p
    stage-Keeps pkt state sess awaiting_success_ack d p =
        finish-Keeps state sess
          (e.backend.backend.get_subscriber_by_username (e.backend.as_text sess.username)) d
    stage-Keeps pkt state sess identity_requested d p = discard-Keeps state s old

    continue-Keeps :
        (pkt : EapPacket) (state : String) (o : Option EapSession) (d : EapState)
        → d.eap_sessions ≡ some s
        → load e.now state s ≡ o
        → AllKeep P (eap_continue e.backend e.now pkt state o s d).0.eap_sessions
    unfolding eap_continue
    continue-Keeps pkt state none d h l = subst (AllKeep P) (sym h) old
    continue-Keeps pkt state (some sess) d h l =
        let (x, x_in, x_is) = load-entry e.now state s sess l in
        stage-Keeps pkt state sess sess.stage d
          (subst (P (eap_session_key state)) x_is (old (eap_session_key state) x x_in))

IsIssued-later :
    (g : Guard) (e : Event) (past : List Event) (key : String) (sess : EapSession)
    → IsIssued g past key sess
    → IsIssued g (e ∷ past) key sess
IsIssued-later g e past key sess (e', older, d, state, pkt, id, m, k, sent, carries, at) =
    (e', older, d, state, pkt, id, Memᴰ.tail m, k, sent, carries, at)

later-Keeps :
    (g : Guard) (e : Event) (past : List Event) (s : Sessions)
    → Keeps (IsIssued g past) s
    → Keeps (IsIssued g (e ∷ past)) s
later-Keeps g e past s old key x found_x = IsIssued-later g e past key x.val (old key x found_x)

module _ (g : Guard) (e : Event) (past : List Event) (d : EapState) (k : Served g past d) where
  abbrev Now : String → EapSession → Type 0
  Now = IsIssued g (e ∷ past)

  start-Keeps :
      (pkt : EapPacket) (s : Sessions)
      → d.eap_sessions ≡ some s
      → Keeps Now s
      → (serve e d).1 ≡ some (eap_start e.backend e.now e.random e.request.user_name pkt s d).1
      → AllKeep Now (eap_start e.backend e.now e.random e.request.user_name pkt s d).0.eap_sessions
  unfolding eap_start
  start-Keeps pkt s h old reply =
      let username = identity_of e.backend pkt e.request.user_name in
      elim (Bool-cases (is_empty username)) [
        | inl c ↦ unchanged (ground (arith, c))
        | inr c ↦ elim (Bool-cases (check e.now (e.backend.as_text username) d.guard).0) [
          | inl l ↦ unchanged (ground (arith, c, l))
          | inr l ↦ elim (Option-cases e.random.new_challenge) [
            | inl n ↦ unchanged (ground (arith, c, l, n))
            | inr (challenge, n) ↦ elim (Option-cases e.random.new_state) [
              | inl m ↦ unchanged (ground (arith, c, l, n, m))
              | inr (state, m) ↦
                  let sess = challenge_session e.backend pkt username challenge in
                  let step : after ≡ some (save e.now state sess s) = ground (arith, c, l, n, m) in
                  let sent : (eap_start e.backend e.now e.random e.request.user_name pkt s d).1
                      ≡ write_eap_challenge e.backend state
                          (challenge_packet e.backend pkt challenge) =
                    ground (arith, c, l, n, m) in
                  subst (AllKeep Now) (sym step) (
                    save-Keeps Now e.now state sess s
                      (
                        e,
                        past,
                        d,
                        state,
                        challenge_packet e.backend pkt challenge,
                        pkt.identifier,
                        Memᴰ.head refl,
                        k,
                        reply ∙ ap (λ r. some r) sent,
                        refl,
                        refl,
                      )
                      old)
            ]
          ]
        ]
      ]
    where
      after : Option Sessions
      after = (eap_start e.backend e.now e.random e.request.user_name pkt s d).0.eap_sessions

      unchanged : after ≡ d.eap_sessions → AllKeep Now after
      unchanged step = subst (AllKeep Now) (sym (step ∙ h)) old

  parsed-Keeps :
      (pe : ParsedEap) (s : Sessions)
      → d.eap_sessions ≡ some s
      → Keeps Now s
      → (serve e d).1 ≡ some (eap_parsed e.backend e.now e.random e.request pe s d).1
      → AllKeep Now (eap_parsed e.backend e.now e.random e.request pe s d).0.eap_sessions
  unfolding eap_parsed
  parsed-Keeps (parsed pkt) s h old reply = elim (Bool-cases (str_eq e.request.state "")) [
    | inl c ↦
        let step : eap_parsed e.backend e.now e.random e.request (parsed pkt) s d
            ≡ eap_start e.backend e.now e.random e.request.user_name pkt s d =
          rw (eap_parsed, c) refl in
        subst (λ r. AllKeep Now r.0.eap_sessions) (sym step)
          (start-Keeps pkt s h old (reply ∙ ap (λ r. some r.1) step))
    | inr c ↦ rw c (
        continue-Keeps Now e s old (λ pkt' resp a key sess p. p) pkt e.request.state
          (load e.now e.request.state s) d h refl)
  ]
  parsed-Keeps short_eap s h old reply = subst (AllKeep Now) (sym h) old
  parsed-Keeps (length_mismatch x y) s h old reply = subst (AllKeep Now) (sym h) old

  answer-Keeps :
      (o : Option Sessions)
      → d.eap_sessions ≡ o
      → AllKeep (IsIssued g past) o
      → (serve e d).1 ≡ some (eap_answer e.backend e.now e.random e.request o d).1
      → AllKeep Now (eap_answer e.backend e.now e.random e.request o d).0.eap_sessions
  unfolding eap_answer
  answer-Keeps none h old reply = subst (AllKeep Now) (sym h) tt
  answer-Keeps (some s) h old reply =
      parsed-Keeps (parse_eap e.request.eap_message) s h (later-Keeps g e past s old) reply

  serve-Keeps :
      AllKeep (IsIssued g past) d.eap_sessions
      → AllKeep (IsIssued g (e ∷ past)) (serve e d).0.eap_sessions
  unfolding serve handle_eap
  serve-Keeps old =
      let answer = eap_answer e.backend e.now e.random e.request d.eap_sessions d in
      elim (Bool-cases (is_empty e.request.eap_message)) [
        | inl c ↦
            let step : (serve e d).0.eap_sessions ≡ d.eap_sessions = ground (arith, c) in
            subst (AllKeep Now) (sym step) (later-AllKeep d.eap_sessions old)
        | inr c ↦
            let step : (serve e d).0.eap_sessions ≡ answer.0.eap_sessions = ground (arith, c) in
            subst (AllKeep Now) (sym step)
              (answer-Keeps d.eap_sessions refl old (ground (arith, c)))
      ]
    where
      later-AllKeep : (o : Option Sessions) → AllKeep (IsIssued g past) o → AllKeep Now o
      later-AllKeep none h = tt
      later-AllKeep (some s) h = later-Keeps g e past s h

-- Every conversation's challenge was issued.
pub Served-AllIssued :
    {g : Guard} (past : List Event) (d : EapState)
    → Served g past d
    → AllKeep (IsIssued g past) d.eap_sessions
Served-AllIssued past d Served.start = λ key x found_x. ground (arith, found_x)
Served-AllIssued {g} past d (Served.next {past = past'} {d = d'} e k) =
    serve-Keeps g e past' d' k (Served-AllIssued past' d' k)
