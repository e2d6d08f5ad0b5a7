-- ===== src/Examples/Partner.antt =====
-- Webhooks of one event to two endpoints, and the addresses that they may not reach.
use isp.Common.{ℕ, ◌+◌, ◌<◌, ◌≡◌, refl, true, false, none, some, [], ◌∷◌, arith}
use isp.Jobqueue.Task.{Row, row_of}
use isp.Jobqueue.Server
use isp.Jobqueue.Server.{update, dead_row, retried_row, finish}
use isp.Partner.Ssrf.{is_blocked_ip, is_local}
use isp.Partner.Ssrf.Ranges.{
  is_blocked_ip-ranges, is_blocked_ip-compatible, in_ranges, number, reserved, compatible,
}
use isp.Partner.Dispatch.{
  blocked_error, abandoned_error, Event, EndpointSecret, payload_for, Outside, Answer, answered,
  blocked_target, pending, abandoned, process_task, webhook_task, backoff, sent, send,
}
use isp.Partner.Outcomes.{Shows, blocked_is_final, abandoned_is_retried, retry_before_logged}

is_blocked_ip-ranges_example :
    is_blocked_ip (100 ∷ 64 ∷ 0 ∷ 1 ∷ []) ≡ in_ranges (number 100 64 0 1) reserved
is_blocked_ip-ranges_example =
    is_blocked_ip-ranges 100 64 0 1 (omega arith) (omega arith) (omega arith) (omega arith)

is_blocked_ip-compatible_example : is_blocked_ip (compatible 169 254 169 254) ≡ true
unfolding is_blocked_ip is_local
is_blocked_ip-compatible_example =
    is_blocked_ip-compatible 169 254 169 254 (omega arith) (omega arith) (omega arith) (omega arith)
      refl

abbrev resolved : Event
resolved = record {
  event_id = "e1";
  event_type = "ticket.resolved";
  entity_id = 4;
  occurred_at = 5;
}

abbrev crm : EndpointSecret
crm = record { endpoint_id = 1; url = "https://crm.example"; secret_encrypted = "k1" }

abbrev erp : EndpointSecret
erp = record { endpoint_id = 2; url = "https://erp.example"; secret_encrypted = "k2" }

-- A partner that answers alike every time.
abbrev partner : Answer → Outside
partner answer = record {
  unmarshal = λ b. some (payload_for resolved crm);
  marshal = λ p. some (p.endpoint_id ∷ []);
  marshal_event = λ e. some [];
  decrypt = λ s. some s;
  hmac = λ k m. m;
  client = λ r. answer;
  refuses = λ v. false;
  refuses_task = λ b. false;
  decimal = λ n. "8";
}

abbrev down : Outside
down = partner (answered 503 "")

abbrev inside : Outside
inside = partner (blocked_target "10.0.0.1")

abbrev delivery_row : ℕ → Row
delivery_row n =
    record (row_of 5 1 (webhook_task down (1 ∷ [])) (webhook_task down (1 ∷ [])).opts) {
      retry_count = n;
    }

blocked_is_final_example :
    Shows (payload_for resolved crm) abandoned none (process_task inside 9 9 (delivery_row 0) []).0
    × (finish 9 Server.backoff
          (delivery_row 0)
          (process_task inside 9 9 (delivery_row 0) []).1
          (delivery_row 0 ∷ [])
        ≡ update 1 (dead_row 9 (blocked_error inside "10.0.0.1")) (delivery_row 0 ∷ []))
unfolding send sent
blocked_is_final_example =
    blocked_is_final inside (λ v. refl) 9 9 (delivery_row 0) [] (payload_for resolved crm) "k1" []
      refl refl refl "10.0.0.1" Server.backoff (delivery_row 0 ∷ []) refl refl

abandoned_is_retried_example :
    Shows (payload_for resolved crm) abandoned none (process_task down 9 9 (delivery_row 7) []).0
    × (finish 9 Server.backoff
          (delivery_row 7)
          (process_task down 9 9 (delivery_row 7) []).1
          (delivery_row 7 ∷ [])
        ≡ update 1
            (retried_row 9
              (abandoned_error down 8 "partner returned an HTTP error")
              (Server.backoff 7))
            (delivery_row 7 ∷ []))
unfolding send sent
abandoned_is_retried_example =
    abandoned_is_retried down (λ v. refl) 9 9 (delivery_row 7) [] (payload_for resolved crm) "k1" []
      refl refl refl "partner returned an HTTP error" Server.backoff (delivery_row 7 ∷ []) refl refl
      refl refl

retry_before_logged_example :
    Shows
      (payload_for resolved crm)
      pending
      (some (9 + backoff 2))
      (process_task down 9 9 (delivery_row 2) []).0
    × (finish 9 Server.backoff
          (delivery_row 2)
          (process_task down 9 9 (delivery_row 2) []).1
          (delivery_row 2 ∷ [])
        ≡ update 1
            (retried_row 9 "partner returned an HTTP error" (Server.backoff 2))
            (delivery_row 2 ∷ []))
    × (9 + Server.backoff 2 < 9 + backoff 2)
unfolding send sent
retry_before_logged_example =
    retry_before_logged down (λ v. refl) 9 9 (delivery_row 2) [] (payload_for resolved crm) "k1" []
      refl refl refl "partner returned an HTTP error" (delivery_row 2 ∷ []) refl refl (omega arith)
      refl
