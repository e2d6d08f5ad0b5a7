-- ===== src/Partner/Outcomes.antt =====
-- dispatch.go on the queue of internal/jobqueue: what the delivery log says, and what the queue does.
use mathlib.Core.Path.{subst}
use isp.Common.{
  ℕ, suc, ◌+◌, ◌<◌, ◌≡◌, refl, sym, ap, ◌∙◌, inl, inr, String, str_eq, eq_iff, true, false, ◌&&◌,
  Option, none, some, List, [], ◌∷◌, leb, ◌==◌, if◌then◌else◌, arith, Bool-cases, zero,
}
use isp.Common.Clock.{Time, Duration}
use isp.Common.Bytes.{Bytes}
use isp.Jobqueue.Task.{Row, row_of}
use isp.Jobqueue.Server
use isp.Jobqueue.Server.{update, dead_row, retried_row, finish}
use isp.Partner.Dispatch.{
  blocked_error, abandoned_error, EndpointSecret, payload_for, first_delivery, next_delivery,
  max_attempts, DeliveryStatus, pending, abandoned, Delivery, record_delivery_attempt, backoff,
  Event, TaskPayload, Outside, send, record_with_next, report, process_task, webhook_task, Sent,
  outcome_failed, outcome_blocked,
}

-- The row of the log for an endpoint's copy of an event.
unfoldable pub shown : ℕ → String → List Delivery → Option Delivery
shown endpoint_id event_id [] = none
shown endpoint_id event_id (r ∷ rs) =
    if r.endpoint_id == endpoint_id && str_eq r.event_id event_id
    then some r
    else shown endpoint_id event_id rs

-- What a report leaves of the row: the status and the instant of the next attempt.
abbrev pub Shows : TaskPayload → DeliveryStatus → Option Time → List Delivery → Type 0
Shows p status next log =
    (r : Delivery) × (shown p.endpoint_id p.event.event_id log ≡ some r)
    × (r.status ≡ status)
    × (r.next_attempt_at ≡ next)

shown-recorded :
    (now : Time) (v : Delivery) (log : List Delivery)
    → (r : Delivery) × (shown v.endpoint_id v.event_id (record_delivery_attempt now v log) ≡ some r)
      × (r.status ≡ v.status)
      × (r.next_attempt_at ≡ v.next_attempt_at)
unfolding shown record_delivery_attempt
shown-recorded now v [] =
    (first_delivery now v, ground (arith, eq_iff v.event_id v.event_id), refl, refl)
shown-recorded now v (x ∷ xs) =
    elim (Bool-cases (x.endpoint_id == v.endpoint_id && str_eq x.event_id v.event_id)) [
      | inl e ↦ (next_delivery now x v, ground (arith, e, eq_iff v.event_id v.event_id), refl, refl)
      | inr e ↦ let (r, s, t, u) = shown-recorded now v xs in (r, ground (arith, e, s), t, u)
    ]

queue_is_sooner : (n : ℕ) → suc n < max_attempts → Server.backoff n < backoff n
unfolding backoff
queue_is_sooner zero h = omega arith
queue_is_sooner (suc zero) h = omega arith
queue_is_sooner (suc (suc zero)) h = omega arith
queue_is_sooner (suc (suc (suc zero))) h = omega arith
queue_is_sooner (suc (suc (suc (suc zero)))) h = omega arith
queue_is_sooner (suc (suc (suc (suc (suc zero))))) h = omega arith
queue_is_sooner (suc (suc (suc (suc (suc (suc zero)))))) h = omega arith
queue_is_sooner (suc (suc (suc (suc (suc (suc (suc n))))))) h = absurd (omega (arith, h))

module _ (o : Outside) (recorded : (v : Delivery) → o.refuses v ≡ false) where
  record_with_next-Shows :
      (now : Time) (p : TaskPayload) (status : DeliveryStatus) (resp : Option ℕ)
      (excerpt err : String) (next : Option Time) (log : List Delivery)
      → Shows p status next (record_with_next o now p status resp excerpt err next log)
  unfolding record_with_next
  record_with_next-Shows now p status resp excerpt err next log =
      let v : Delivery = record {
        endpoint_id = p.endpoint_id;
        event_id = p.event.event_id;
        status = status;
        attempts = 0;
        response_status = resp;
        response_excerpt = excerpt;
        last_error = err;
        next_attempt_at = next;
        delivered_at = none;
      } in
      rw (recorded v) (shown-recorded now v log)

  module _ (now : Time) (p : TaskPayload) (attempt : ℕ) (r : Sent) (log : List Delivery)
      (err : String) (e : r.error ≡ some err) where
    report-blocked :
        r.outcome ≡ outcome_blocked
        → report o now p attempt r log ≡ (
          record_with_next o now p abandoned r.status r.excerpt err none log,
          some (blocked_error o err, true),
        )
    unfolding report
    report-blocked b = ground (arith, e, b)

    report-last :
        r.outcome ≡ outcome_failed
        → leb max_attempts (attempt + 1) ≡ true
        → report o now p attempt r log ≡ (
          record_with_next o now p abandoned r.status r.excerpt err none log,
          some (abandoned_error o (attempt + 1) err, false),
        )
    unfolding report
    report-last b l = ground (arith, e, b, l)

    report-retry :
        r.outcome ≡ outcome_failed
        → leb max_attempts (attempt + 1) ≡ false
        → report o now p attempt r log ≡ (
          record_with_next o now p pending r.status r.excerpt err
              (some (now + backoff attempt))
              log,
          some (err, false),
        )
    unfolding report
    report-retry b l = ground (arith, e, b, l)

  module _ (now : Time) (unix : ℕ) (ct : Row) (log : List Delivery) (p : TaskPayload)
      (secret : String) (body : Bytes) (read : o.unmarshal ct.payload ≡ some p)
      (decrypted : o.decrypt p.secret_encrypted ≡ some secret)
      (marshalled : o.marshal_event p.event ≡ some body) where
    process_task-report :
        process_task o now unix ct log
        ≡ report o now p ct.retry_count (send o unix p secret body) log
    unfolding process_task
    process_task-report = rw (process_task, read, decrypted, marshalled) refl

    -- A target that the dialler refuses is given up at once: abandoned in the log, dead in the queue,
    -- however many attempts are left.
    pub blocked_is_final :
        (err : String) (delay : ℕ → Duration) (rows : List Row)
        → (send o unix p secret body).error ≡ some err
        → (send o unix p secret body).outcome ≡ outcome_blocked
        → Shows p abandoned none (process_task o now unix ct log).0
          × (finish now delay ct (process_task o now unix ct log).1 rows
              ≡ update ct.id (dead_row now (blocked_error o err)) rows)
    unfolding finish
    blocked_is_final err delay rows e b =
        let r = send o unix p secret body in
        let is = process_task-report ∙ report-blocked now p ct.retry_count r log err e b in
        (
          subst (λ t. Shows p abandoned none t.0) (sym is)
              (record_with_next-Shows now p abandoned r.status r.excerpt err none log),
          ap (λ t. finish now delay ct t.1 rows) is,
        )

    -- The last attempt that the log allows is not the last that the queue makes: when the eighth
    -- attempt fails, the log says abandoned and the task is pending again.
    pub abandoned_is_retried :
        (err : String) (delay : ℕ → Duration) (rows : List Row)
        → (send o unix p secret body).error ≡ some err
        → (send o unix p secret body).outcome ≡ outcome_failed
        → suc ct.retry_count ≡ max_attempts
        → ct.max_retry ≡ (webhook_task o ct.payload).opts.max_retry
        → Shows p abandoned none (process_task o now unix ct log).0
          × (finish now delay ct (process_task o now unix ct log).1 rows
              ≡ update ct.id
                  (retried_row now
                    (abandoned_error o (ct.retry_count + 1) err)
                    (delay ct.retry_count))
                  rows)
    unfolding finish
    abandoned_is_retried err delay rows e b last bound =
        let r = send o unix p secret body in
        let is =
          process_task-report
          ∙ report-last now p ct.retry_count r log err e b (ground (arith, last)) in
        (
          subst (λ t. Shows p abandoned none t.0) (sym is)
              (record_with_next-Shows now p abandoned r.status r.excerpt err none log),
          ap (λ t. finish now delay ct t.1 rows) is ∙ ground (arith, last, bound),
        )

    -- On every earlier attempt that fails, the task is pending again, and due sooner than the instant
    -- that the log gives for the next attempt.
    pub retry_before_logged :
        (err : String) (rows : List Row)
        → (send o unix p secret body).error ≡ some err
        → (send o unix p secret body).outcome ≡ outcome_failed
        → suc ct.retry_count < max_attempts
        → ct.max_retry ≡ (webhook_task o ct.payload).opts.max_retry
        → Shows p pending (some (now + backoff ct.retry_count)) (process_task o now unix ct log).0
          × (finish now Server.backoff ct (process_task o now unix ct log).1 rows
              ≡ update ct.id (retried_row now err (Server.backoff ct.retry_count)) rows)
          × (now + Server.backoff ct.retry_count < now + backoff ct.retry_count)
    unfolding finish
    retry_before_logged err rows e b early bound =
        let r = send o unix p secret body in
        let is =
          process_task-report
          ∙ report-retry now p ct.retry_count r log err e b (ground (arith, early)) in
        let sooner = queue_is_sooner ct.retry_count early in
        (
          subst (λ t. Shows p pending (some (now + backoff ct.retry_count)) t.0) (sym is)
              (record_with_next-Shows now p pending r.status r.excerpt err
                (some (now + backoff ct.retry_count)) log),
          ap (λ t. finish now Server.backoff ct t.1 rows) is ∙ ground (arith, early, bound),
          omega (arith, sooner),
        )

-- The rows that `Emit` adds: one for each payload, with the next ids.
unfoldable pub webhook_rows : Outside → Time → ℕ → List Bytes → List Row
webhook_rows o now id [] = []
webhook_rows o now id (b ∷ bs) =
    row_of now id (webhook_task o b) (webhook_task o b).opts ∷ webhook_rows o now (suc id) bs

-- The payloads that marshal and whose tasks the database takes, in the order of the endpoints.
unfoldable pub payloads : Outside → Event → List EndpointSecret → List Bytes
payloads o ev [] = []
payloads o ev (p ∷ ps) =
    let rest = payloads o ev ps in
    elim (o.marshal (payload_for ev p)) [
      | none ↦ rest
      | some b ↦ if o.refuses_task b then rest else b ∷ rest
    ]
