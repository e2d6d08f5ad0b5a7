-- ===== src/Partner/Dispatch.antt =====
-- internal/partner/webhook.go and dispatch.go, and `RecordDeliveryAttempt` of internal/db/partner.go.
-- JSON, the cipher, HMAC-SHA256 and the HTTP client are fields of `Outside`; a metric or a log line is
-- left out. Unix times are whole seconds, as `FormatInt` writes them.
use Prim.Native.String.{◌++◌ as ◌<>◌}
use isp.Common.{
  ℕ, zero, suc, ◌+◌, ◌*◌, ◌/◌, ◌%◌, String, str_eq, Bool, true, false, ◌&&◌, ◌||◌, Option, none,
  some, List, [], ◌∷◌, ◌++◌, leb, ltb, ◌==◌, if◌then◌else◌,
}
use isp.Common.Clock.{Time, Duration, minute, hour}
use isp.Common.Bytes.{Bytes, text}
use isp.Jobqueue.Task.{Task, Row, Table, new_task, enqueue_context}
use isp.Radius.Eap.Mschap.{hex_encode}

abbrev pub max_attempts : ℕ
max_attempts = 8

abbrev pub delivery_timeout : ℕ
delivery_timeout = 20

abbrev pub valid_events : List String
valid_events =
    "subscriber.created" ∷ "subscriber.status_changed" ∷ "payment.received" ∷ "invoice.generated"
    ∷ "ticket.created" ∷ "ticket.resolved" ∷ []

abbrev pub is_one_of : List String → String → Bool
is_one_of [] e = false
is_one_of (v ∷ vs) e = str_eq v e || is_one_of vs e

-- `ValidateEvents`
unfoldable pub validate_events : List String → Bool
validate_events [] = false
validate_events (e ∷ []) = is_one_of valid_events e
validate_events (e ∷ f ∷ es) =
    let rest = validate_events (f ∷ es) in is_one_of valid_events e && rest

pub record Event : Type 0 where
  pub event_id : String
  pub event_type : String
  pub entity_id : ℕ
  pub occurred_at : Time

-- `NewEvent`, with the fresh identifier.
unfoldable pub new_event : String → String → ℕ → Time → Option Event
new_event fresh event_type entity_id occurred_at =
    if is_one_of valid_events event_type
    then some (record {
      event_id = fresh;
      event_type = event_type;
      entity_id = entity_id;
      occurred_at = occurred_at;
    })
    else none

pub record TaskPayload : Type 0 where
  pub endpoint_id : ℕ
  pub url : String
  pub secret_encrypted : String
  pub event : Event

-- An endpoint that subscribes to an event.
pub record EndpointSecret : Type 0 where
  pub endpoint_id : ℕ
  pub url : String
  pub secret_encrypted : String

abbrev pub payload_for : Event → EndpointSecret → TaskPayload
payload_for ev ep = record {
  endpoint_id = ep.endpoint_id;
  url = ep.url;
  secret_encrypted = ep.secret_encrypted;
  event = ev;
}

pub data DeliveryStatus : Type 0 where
  pending delivered abandoned : DeliveryStatus

-- A row of webhook_deliveries.
pub record Delivery : Type 0 where
  pub endpoint_id : ℕ
  pub event_id : String
  pub status : DeliveryStatus
  pub attempts : ℕ
  pub response_status : Option ℕ
  pub response_excerpt : String
  pub last_error : String
  pub next_attempt_at : Option Time
  pub delivered_at : Option Time

abbrev pub is_delivered : DeliveryStatus → Bool
is_delivered delivered = true
is_delivered _ = false

abbrev pub first_delivery : Time → Delivery → Delivery
first_delivery now v = record v {
  attempts = 1;
  delivered_at = if is_delivered v.status then some now else none;
}

-- `ON CONFLICT (endpoint_id, event_id) DO UPDATE`
abbrev pub next_delivery : Time → Delivery → Delivery → Delivery
next_delivery now old v = record v {
  attempts = suc old.attempts;
  delivered_at = elim old.delivered_at [
    | some t ↦ some t
    | none ↦ if is_delivered v.status then some now else none
  ];
}

-- The upsert: `v` holds the statement's values.
unfoldable pub record_delivery_attempt : Time → Delivery → List Delivery → List Delivery
record_delivery_attempt now v [] = first_delivery now v ∷ []
record_delivery_attempt now v (r ∷ rs) =
    let rest = record_delivery_attempt now v rs in
    if r.endpoint_id == v.endpoint_id && str_eq r.event_id v.event_id
    then next_delivery now r v ∷ rs
    else r ∷ rest

abbrev pub backoff_schedule : List Duration
backoff_schedule =
    1 * minute
    ∷ 2 * minute
    ∷ 4 * minute
    ∷ 8 * minute
    ∷ 16 * minute
    ∷ 32 * minute
    ∷ 64 * minute
    ∷ 2 * hour
    ∷ []

-- The entry, or the ceiling past the table.
abbrev pub entry_or : Duration → ℕ → List Duration → Duration
entry_or ceiling n [] = ceiling
entry_or ceiling zero (d ∷ ds) = d
entry_or ceiling (suc n) (d ∷ ds) = entry_or ceiling n ds

unfoldable pub backoff : ℕ → Duration
backoff attempt = entry_or (6 * hour) attempt backoff_schedule

-- `strconv.FormatInt(n, 10)`; the number itself is fuel enough for its digits.
abbrev pub digits : ℕ → ℕ → Bytes → Bytes
digits zero n acc = (b'0' + n % 10) ∷ acc
digits (suc fuel) n acc =
    let rest = digits fuel (n / 10) ((b'0' + n % 10) ∷ acc) in
    if ltb n 10 then (b'0' + n % 10) ∷ acc else rest

abbrev pub format_int : ℕ → Bytes
format_int n = digits n n []

-- What an HTTP attempt is made of, and what comes of it.
pub record Request : Type 0 where
  pub url : String
  pub body : Bytes
  pub signature : Bytes
  pub event_id : String
  pub event_type : String
  pub timestamp : ℕ

pub data Answer : Type 0 where
  bad_request : String → Answer
  -- the dialler refused the address
  blocked_target : String → Answer
  transport_error : String → Answer
  -- the status and at most 512 bytes of the body
  answered : ℕ → String → Answer

pub record Outside : Type 0 where
  pub unmarshal : Bytes → Option TaskPayload
  pub marshal : TaskPayload → Option Bytes
  pub marshal_event : Event → Option Bytes
  pub decrypt : String → Option String
  pub hmac : String → Bytes → Bytes
  pub client : Request → Answer
  -- the database refuses the task with the payload
  pub refuses_task : Bytes → Bool
  -- `%d`
  pub decimal : ℕ → String
  -- the statement that writes the log fails
  pub refuses : Delivery → Bool

pub data Outcome : Type 0 where
  outcome_ok outcome_blocked outcome_failed : Outcome

-- The error is `none` where `send` returns none.
pub record Sent : Type 0 where
  pub outcome : Outcome
  pub status : Option ℕ
  pub excerpt : String
  pub error : Option String

unfoldable pub sent : Answer → Sent
sent (bad_request e) = record {
  outcome = outcome_failed;
  status = none;
  excerpt = "";
  error = some e;
}
sent (blocked_target e) = record {
  outcome = outcome_blocked;
  status = none;
  excerpt = "";
  error = some e;
}
sent (transport_error e) = record {
  outcome = outcome_failed;
  status = none;
  excerpt = "";
  error = some e;
}
sent (answered status excerpt) =
    if leb 200 status && ltb status 300
    then record { outcome = outcome_ok; status = some status; excerpt = excerpt; error = none }
    else record {
      outcome = outcome_failed;
      status = some status;
      excerpt = excerpt;
      error = some "partner returned an HTTP error";
    }

module _ (o : Outside) where
  unfoldable pub sign : String → ℕ → Bytes → Bytes
  sign secret unix body =
      text "t="
      ++ format_int unix
      ++ text ",v1="
      ++ hex_encode (o.hmac secret (format_int unix ++ text "." ++ body))

  unfoldable pub send : ℕ → TaskPayload → String → Bytes → Sent
  send unix p secret body = sent (
      o.client (record {
        url = p.url;
        body = body;
        signature = sign secret unix body;
        event_id = p.event.event_id;
        event_type = p.event.event_type;
        timestamp = unix;
      }))

  -- `recordWithNext`: a failure is only logged.
  unfoldable pub record_with_next :
      Time
      → TaskPayload
      → DeliveryStatus
      → Option ℕ
      → String
      → String
      → Option Time
      → List Delivery
      → List Delivery
  record_with_next now p status resp_status excerpt err next log =
      let v : Delivery = record {
        endpoint_id = p.endpoint_id;
        event_id = p.event.event_id;
        status = status;
        attempts = 0;
        response_status = resp_status;
        response_excerpt = excerpt;
        last_error = err;
        next_attempt_at = next;
        delivered_at = none;
      } in
      if o.refuses v then log else record_delivery_attempt now v log

  -- The errors that `ProcessTask` wraps what was sent in.
  abbrev pub blocked_error : String → String
  blocked_error err = ("partner: " <> err) <> ": jobqueue: skip retry"

  abbrev pub abandoned_error : ℕ → String → String
  abandoned_error attempts err =
      ("partner: webhook abandoned after " <> o.decimal attempts) <> (" attempts: " <> err)

  -- The `switch` of `ProcessTask`. An error comes with whether it wraps `SkipRetry`.
  unfoldable pub report :
      Time → TaskPayload → ℕ → Sent → List Delivery → List Delivery × Option (String × Bool)
  report now p attempt r log = elim r.error [
    | none ↦ (record_with_next now p delivered r.status r.excerpt "" none log, none)
    | some err ↦ elim r.outcome [
      | outcome_blocked ↦ (
        record_with_next now p abandoned r.status r.excerpt err none log,
        some (blocked_error err, true),
      )
      | _ ↦
          if leb max_attempts (attempt + 1)
          then (
            record_with_next now p abandoned r.status r.excerpt err none log,
            some (abandoned_error (attempt + 1) err, false),
          )
          else (
            record_with_next now p pending r.status r.excerpt err (some (now + backoff attempt))
                log,
            some (err, false),
          )
    ]
  ]

  -- `ProcessTask`, with the retry count of the claim as the attempt.
  unfoldable pub process_task :
      Time → ℕ → Row → List Delivery → List Delivery × Option (String × Bool)
  process_task now unix ct log = elim (o.unmarshal ct.payload) [
    | none ↦ (log, some ("partner: unmarshal webhook task", true))
    | some p ↦ elim (o.decrypt p.secret_encrypted) [
      | none ↦ (
        record_with_next now p abandoned none "" "signing secret could not be decrypted" none log,
        some ("partner: decrypt webhook secret", true),
      )
      | some secret ↦ elim (o.marshal_event p.event) [
        | none ↦ (log, some ("partner: marshal webhook body", true))
        | some body ↦ report now p ct.retry_count (send unix p secret body) log
      ]
    ]
  ]

  abbrev pub webhook_task : Bytes → Task
  webhook_task payload = new_task "partner:webhook" payload (
      (λ x. record x { queue = "webhooks" })
      ∷ (λ x. record x { max_retry = max_attempts })
      ∷ (λ x. record x { timeout = delivery_timeout + 10 })
      ∷ [])

  -- The loop of `Emit`: an endpoint whose payload does not marshal, or whose task the database refuses,
  -- is passed over.
  unfoldable pub emit_to : Time → Event → List EndpointSecret → Table → Table
  emit_to now ev [] t = t
  emit_to now ev (p ∷ ps) t =
      let queued = emit_to now ev ps in
      elim (o.marshal (payload_for ev p)) [
        | none ↦ queued t
        | some payload ↦ queued (
            if o.refuses_task payload
            then t
            else (enqueue_context now (webhook_task payload) [] t).0)
      ]

  -- `Emit`: `subscribers` is `none` where they could not be loaded.
  unfoldable pub emit : Time → String → String → ℕ → Option (List EndpointSecret) → Table → Table
  emit now fresh event_type entity_id subscribers t =
      elim (new_event fresh event_type entity_id now) [
        | none ↦ t
        | some ev ↦ elim subscribers [ none ↦ t | some eps ↦ emit_to now ev eps t ]
      ]
