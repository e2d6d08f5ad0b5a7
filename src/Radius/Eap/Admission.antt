-- ===== src/Radius/Eap/Admission.antt =====
-- eap_handler.go: what stands behind an accept, over any requests from any peers.
use mathlib.Core.Path.{subst}
use mathlib.Core.List.{Memᴰ}
use isp.Common.{
  ℕ, ◌+◌, ◌≡◌, refl, sym, ap, ◌∙◌, inl, inr, String, str_eq, eq_iff, true, Option, none, some, List,
  [], ◌∷◌, arith, Bool-cases, Option-cases,
}
use isp.Common.Clock.{Time}
use isp.Common.Maps.{lookup, lookup-insert, lookup-erase}
use isp.Localcache.Store.{StoreEntry, get, set, delete}
use isp.Nas.Attributes.{is_empty}
use isp.Radius.BruteForce.{Guard, check}
use isp.Radius.Auth.{Subscriber, Fetched, failed, absent, found, authorises_service}
use isp.Radius.Eap.Packet.{
  too_short, not_a_response, bad_value_size, truncated, EapPacket, ParsedEap, parsed, short_eap,
  length_mismatch, parse_eap, ParsedResponse, response, Response, parse_response,
}
use isp.Radius.Eap.Mschap.{
  Verified, no_nt_hash, bad_nt_response, cannot_hash, verified, verify_mschapv2,
}
use isp.Radius.Eap.Session.{
  eap_session_ttl, challenge_issued, identity_requested, Stage, awaiting_success_ack, EapSession,
  Sessions, eap_session_key, save, load, discard, EapRequest, Random, EapBackend, EapReply,
  EapState, set_sessions,
}
use isp.Radius.Eap.Handler.{
  eap_answer, eap_at_stage, identity_of, with_failure, eap_start, eap_verify_response, eap_finish,
  eap_fail, eap_continue, eap_parsed, handle_eap, verified_reply, subscriber_reply, response_reply,
  eap_accepted, challenge_session, verified_session,
}

-- A request, with the database and the random source as they answer it.
pub record Event : Type 0 where
  pub backend : EapBackend
  pub now : Time
  pub random : Random
  pub request : EapRequest

unfoldable pub serve : Event → EapState → EapState × Option EapReply
serve e d = handle_eap e.backend e.now e.random e.request d

-- The state after the requests, the last one first, from a daemon without conversations.
pub data Served (g : Guard) : List Event → EapState → Type 0 where
  start : Served g [] (record { guard = g; eap_sessions = some [] })
  next :
      {past : List Event} {d : EapState} (e : Event)
      → Served g past d
      → Served g (e ∷ past) (serve e d).0

-- The request carried, under the State that has the key, a response to the session's challenge that
-- verified against the hash of a subscriber whose status granted service.
abbrev pub IsProof : String → EapSession → Event → Type 0
IsProof key sess e =
    (pkt : EapPacket) × (resp : Response) × (sub : Subscriber) × (eap_session_key e.request.state
      ≡ key)
    × (parse_eap e.request.eap_message ≡ parsed pkt)
    × (parse_response pkt.data_bytes ≡ response resp)
    × (e.backend.backend.get_subscriber_by_username (e.backend.as_text sess.username) ≡ found sub)
    × (authorises_service sub.status ≡ true)
    × (verify_mschapv2 e.backend.primitives sub.nt_hash sess.authenticator_challenge
          resp.peer_challenge resp.nt_response sess.username
        ≡ verified sess.authenticator_response)

abbrev pub IsProven : List Event → String → EapSession → Type 0
IsProven past key sess = (e : Event) × Memᴰ e past × IsProof key sess e

-- Every conversation that awaits its acknowledgement was proven.
abbrev pub AreProven : List Event → Sessions → Type 0
AreProven past s =
    (key : String) (x : StoreEntry EapSession)
    → lookup key s ≡ some x
    → x.val.stage ≡ awaiting_success_ack
    → IsProven past key x.val

abbrev pub AllProven : List Event → Option Sessions → Type 0
AllProven past none = Unit
AllProven past (some s) = AreProven past s

-- A saved conversation is proven if it awaits its acknowledgement.
save-proven :
    (past : List Event) (now : Time) (state : String) (sess : EapSession) (s : Sessions)
    → (sess.stage ≡ awaiting_success_ack → IsProven past (eap_session_key state) sess)
    → AreProven past s
    → AreProven past (save now state sess s)
unfolding save set
save-proven past now state sess s new old key x found_x awaits =
    let entry : StoreEntry EapSession = record { val = sess; expires = now + eap_session_ttl } in
    let at = sym (lookup-insert (eap_session_key state) key entry s) ∙ found_x in
    elim (Bool-cases (str_eq (eap_session_key state) key)) [
      | inl e ↦
          let same_key : eap_session_key state ≡ key =
            ground (arith, e, eq_iff (eap_session_key state) key) in
          let same : entry ≡ x = ground (arith, at, e) in
          subst (λ y. IsProven past key y.val) same
            (subst (λ k. IsProven past k sess) same_key (new (ap (λ y. y.val.stage) same ∙ awaits)))
      | inr e ↦ old key x (ground (arith, at, e)) awaits
    ]

discard-proven :
    (past : List Event) (state : String) (s : Sessions)
    → AreProven past s
    → AreProven past (discard state s)
unfolding discard delete
discard-proven past state s old key x found_x awaits =
    let at = sym (lookup-erase (eap_session_key state) key s) ∙ found_x in
    elim (Bool-cases (str_eq (eap_session_key state) key)) [
      | inl e ↦ ground (arith, at, e)
      | inr e ↦ old key x (ground (arith, at, e)) awaits
    ]

later-proven :
    (e : Event) (past : List Event) (s : Sessions) → AreProven past s → AreProven (e ∷ past) s
later-proven e past s old key x found_x awaits =
    let (e', m, proof) = old key x found_x awaits in (e', Memᴰ.tail m, proof)

pub load-entry :
    (now : Time) (state : String) (s : Sessions) (sess : EapSession)
    → load now state s ≡ some sess
    → (x : StoreEntry EapSession) × (lookup (eap_session_key state) s ≡ some x) × (x.val ≡ sess)
unfolding load get
load-entry now state s sess h = elim (Option-cases (lookup (eap_session_key state) s)) [
  | inl e ↦ ground (arith, h, e)
  | inr (x, e) ↦ (x, e, ground (arith, h, e))
]

module _ (e : Event) (past : List Event) (s : Sessions) where
  fail-proven :
      (id : ℕ) (state : String) (d : EapState)
      → AreProven past s
      → AllProven (e ∷ past) (eap_fail e.backend id state s d).0.eap_sessions
  unfolding eap_fail
  fail-proven id state d old =
      later-proven e past (discard state s) (discard-proven past state s old)

  verified-proven :
      (pkt : EapPacket) (resp : Response) (sess : EapSession) (sub : Subscriber) (v : Verified)
      (d : EapState)
      → AreProven past s
      → parse_eap e.request.eap_message ≡ parsed pkt
      → parse_response pkt.data_bytes ≡ response resp
      → e.backend.backend.get_subscriber_by_username (e.backend.as_text sess.username) ≡ found sub
      → authorises_service sub.status ≡ true
      → verify_mschapv2 e.backend.primitives sub.nt_hash sess.authenticator_challenge
          resp.peer_challenge resp.nt_response sess.username
        ≡ v
      → AllProven
          (e ∷ past)
          (verified_reply e.backend e.now pkt e.request.state resp sess v s d).0.eap_sessions
  unfolding verified_reply
  verified-proven pkt resp sess sub no_nt_hash d old hp hr hf hs hv =
      fail-proven pkt.identifier e.request.state d old
  verified-proven pkt resp sess sub bad_nt_response d old hp hr hf hs hv =
      fail-proven pkt.identifier e.request.state (with_failure e.backend e.now sess.username d) old
  verified-proven pkt resp sess sub cannot_hash d old hp hr hf hs hv =
      fail-proven pkt.identifier e.request.state (with_failure e.backend e.now sess.username d) old
  verified-proven pkt resp sess sub (verified a) d old hp hr hf hs hv =
      save-proven (e ∷ past) e.now e.request.state (verified_session e.backend pkt resp a sess) s
        (λ awaits. (e, Memᴰ.head refl, (pkt, resp, sub, refl, hp, hr, hf, hs, hv)))
        (later-proven e past s old)

  subscriber-proven :
      (pkt : EapPacket) (resp : Response) (sess : EapSession) (f : Fetched Subscriber)
      (d : EapState)
      → AreProven past s
      → parse_eap e.request.eap_message ≡ parsed pkt
      → parse_response pkt.data_bytes ≡ response resp
      → e.backend.backend.get_subscriber_by_username (e.backend.as_text sess.username) ≡ f
      → AllProven
          (e ∷ past)
          (subscriber_reply e.backend e.now pkt e.request.state resp sess f s d).0.eap_sessions
  unfolding subscriber_reply
  subscriber-proven pkt resp sess failed d old hp hr hf =
      fail-proven pkt.identifier e.request.state (with_failure e.backend e.now sess.username d) old
  subscriber-proven pkt resp sess absent d old hp hr hf =
      fail-proven pkt.identifier e.request.state (with_failure e.backend e.now sess.username d) old
  subscriber-proven pkt resp sess (found sub) d old hp hr hf =
      elim (Bool-cases (authorises_service sub.status)) [
        | inl hs ↦ rw hs (
            verified-proven pkt resp sess sub
              (verify_mschapv2 e.backend.primitives sub.nt_hash sess.authenticator_challenge
                resp.peer_challenge resp.nt_response sess.username)
              d old hp hr hf hs refl)
        | inr hs ↦ rw hs (fail-proven pkt.identifier e.request.state d old)
      ]

  response-proven :
      (pkt : EapPacket) (sess : EapSession) (r : ParsedResponse) (d : EapState)
      → AreProven past s
      → parse_eap e.request.eap_message ≡ parsed pkt
      → parse_response pkt.data_bytes ≡ r
      → AllProven
          (e ∷ past)
          (response_reply e.backend e.now pkt e.request.state sess r s d).0.eap_sessions
  unfolding response_reply
  response-proven pkt sess (response resp) d old hp hr =
      subscriber-proven pkt resp sess
        (e.backend.backend.get_subscriber_by_username (e.backend.as_text sess.username)) d old hp hr
        refl
  response-proven pkt sess too_short d old hp hr = fail-proven pkt.identifier e.request.state d old
  response-proven pkt sess not_a_response d old hp hr =
      fail-proven pkt.identifier e.request.state d old
  response-proven pkt sess bad_value_size d old hp hr =
      fail-proven pkt.identifier e.request.state d old
  response-proven pkt sess truncated d old hp hr = fail-proven pkt.identifier e.request.state d old

  finish-proven :
      (sess : EapSession) (f : Fetched Subscriber) (d : EapState)
      → AreProven past s
      → AllProven
          (e ∷ past)
          (eap_accepted e.backend sess f
            (set_sessions (discard e.request.state s) d)).0.eap_sessions
  unfolding eap_accepted
  finish-proven sess failed d old =
      later-proven e past (discard e.request.state s) (discard-proven past e.request.state s old)
  finish-proven sess absent d old =
      later-proven e past (discard e.request.state s) (discard-proven past e.request.state s old)
  finish-proven sess (found sub) d old =
      later-proven e past (discard e.request.state s) (discard-proven past e.request.state s old)

  start-proven :
      (pkt : EapPacket) (d : EapState)
      → d.eap_sessions ≡ some s
      → AreProven past s
      → AllProven
          (e ∷ past)
          (eap_start e.backend e.now e.random e.request.user_name pkt s d).0.eap_sessions
  unfolding eap_start
  start-proven pkt d h old =
      let username = identity_of e.backend pkt e.request.user_name in
      elim (Bool-cases (is_empty username)) [
        | inl c ↦ unchanged (ground (arith, c))
        | inr c ↦ elim (Bool-cases (check e.now (e.backend.as_text username) d.guard).0) [
          | inl k ↦ unchanged (ground (arith, c, k))
          | inr k ↦ elim (Option-cases e.random.new_challenge) [
            | inl n ↦ unchanged (ground (arith, c, k, n))
            | inr (challenge, n) ↦ elim (Option-cases e.random.new_state) [
              | inl m ↦ unchanged (ground (arith, c, k, n, m))
              | inr (state, m) ↦
                  let sess = challenge_session e.backend pkt username challenge in
                  let step : after ≡ some (save e.now state sess s) = ground (arith, c, k, n, m) in
                  subst (AllProven (e ∷ past)) (sym step) (
                    save-proven (e ∷ past) e.now state sess s (λ awaits. cc)
                      (later-proven e past s old))
            ]
          ]
        ]
      ]
    where
      after : Option Sessions
      after = (eap_start e.backend e.now e.random e.request.user_name pkt s d).0.eap_sessions

      unchanged : after ≡ d.eap_sessions → AllProven (e ∷ past) after
      unchanged step = subst (AllProven (e ∷ past)) (sym (step ∙ h)) (later-proven e past s old)

  stage-proven :
      (pkt : EapPacket) (sess : EapSession) (g : Stage) (d : EapState)
      → parse_eap e.request.eap_message ≡ parsed pkt
      → AreProven past s
      → AllProven
          (e ∷ past)
          (eap_at_stage e.backend e.now pkt e.request.state sess s d g).0.eap_sessions
  unfolding eap_at_stage eap_verify_response eap_finish
  stage-proven pkt sess challenge_issued d hp old =
      response-proven pkt sess (parse_response pkt.data_bytes) d old hp refl
  stage-proven pkt sess awaiting_success_ack d hp old =
      finish-proven sess
        (e.backend.backend.get_subscriber_by_username (e.backend.as_text sess.username)) d old
  stage-proven pkt sess identity_requested d hp old =
      fail-proven pkt.identifier e.request.state d old

  continue-proven :
      (pkt : EapPacket) (loaded : Option EapSession) (d : EapState)
      → d.eap_sessions ≡ some s
      → parse_eap e.request.eap_message ≡ parsed pkt
      → AreProven past s
      → AllProven
          (e ∷ past)
          (eap_continue e.backend e.now pkt e.request.state loaded s d).0.eap_sessions
  unfolding eap_continue
  continue-proven pkt none d h hp old =
      subst (AllProven (e ∷ past)) (sym h) (later-proven e past s old)
  continue-proven pkt (some sess) d h hp old = stage-proven pkt sess sess.stage d hp old

  parsed-proven :
      (pe : ParsedEap) (d : EapState)
      → d.eap_sessions ≡ some s
      → parse_eap e.request.eap_message ≡ pe
      → AreProven past s
      → AllProven (e ∷ past) (eap_parsed e.backend e.now e.random e.request pe s d).0.eap_sessions
  unfolding eap_parsed
  parsed-proven (parsed pkt) d h hp old = elim (Bool-cases (str_eq e.request.state "")) [
    | inl c ↦ rw c (start-proven pkt d h old)
    | inr c ↦ rw c (continue-proven pkt (load e.now e.request.state s) d h hp old)
  ]
  parsed-proven short_eap d h hp old =
      subst (AllProven (e ∷ past)) (sym h) (later-proven e past s old)
  parsed-proven (length_mismatch x y) d h hp old =
      subst (AllProven (e ∷ past)) (sym h) (later-proven e past s old)

answer-proven :
    (e : Event) (past : List Event) (o : Option Sessions) (d : EapState)
    → d.eap_sessions ≡ o
    → AllProven past o
    → AllProven (e ∷ past) (eap_answer e.backend e.now e.random e.request o d).0.eap_sessions
unfolding eap_answer
answer-proven e past none d h old = subst (AllProven (e ∷ past)) (sym h) tt
answer-proven e past (some s) d h old =
    parsed-proven e past s (parse_eap e.request.eap_message) d h refl old

later-AllProven :
    (e : Event) (past : List Event) (o : Option Sessions)
    → AllProven past o
    → AllProven (e ∷ past) o
later-AllProven e past none old = tt
later-AllProven e past (some s) old = later-proven e past s old

serve-proven :
    (e : Event) (past : List Event) (d : EapState)
    → AllProven past d.eap_sessions
    → AllProven (e ∷ past) (serve e d).0.eap_sessions
unfolding serve handle_eap
serve-proven e past d old =
    let answer = eap_answer e.backend e.now e.random e.request d.eap_sessions d in
    elim (Bool-cases (is_empty e.request.eap_message)) [
      | inl c ↦
          let step : (serve e d).0.eap_sessions ≡ d.eap_sessions = ground (arith, c) in
          subst (AllProven (e ∷ past)) (sym step) (later-AllProven e past d.eap_sessions old)
      | inr c ↦
          let step : (serve e d).0.eap_sessions ≡ answer.0.eap_sessions = ground (arith, c) in
          subst (AllProven (e ∷ past)) (sym step) (answer-proven e past d.eap_sessions d refl old)
    ]

pub Served-AllProven :
    {g : Guard} (past : List Event) (d : EapState) → Served g past d → AllProven past d.eap_sessions
Served-AllProven past d Served.start = λ key x found_x awaits. ground (arith, found_x)
Served-AllProven past d (Served.next {past = past'} {d = d'} e k) =
    serve-proven e past' d' (Served-AllProven past' d' k)
