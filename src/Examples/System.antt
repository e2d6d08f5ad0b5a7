-- ===== src/Examples/System.antt =====
-- Two workers on one queue: a task is put in and claimed, and its worker dies.
use mathlib.Core.List.{Memᴰ}
use isp.Common.{◌≡◌, refl, false, some, List, [], ◌∷◌, String, suc, arith}
use isp.Jobqueue.Task.{Row, Task, Options, row_of, pending, enqueue_context}
use isp.Jobqueue.Server.{
  backoff, claimed, claim_next, claim_from, finish, reap_row, reap_expired_leases,
}
use isp.Jobqueue.System.{System, Step, Reach, ReachPrompt, empty}
use isp.Jobqueue.Locks.{IsSound}
use isp.Jobqueue.Kept.{Reach-IsSound}
use isp.Jobqueue.Holders.{IsExclusive}
use isp.Jobqueue.Exclusive.{ReachPrompt-IsExclusive}
use isp.Jobqueue.Reclaimed.{handed_out, crashed_task_reclaimed}
use isp.Jobqueue.Late.{claimed_twice, late_failure_exceeds}

abbrev coa_options : Options
coa_options = record {
  queue = "network_commands";
  max_retry = 1;
  timeout = 0;
  retention = 0;
  task_id = "coa:7";
  process_in = 0;
}

abbrev coa : Task
coa = record { typ = "coa"; payload = []; opts = coa_options }

abbrev coa_row : Row
coa_row = row_of 0 0 coa coa_options

abbrev network : List String
network = "network_commands" ∷ []

abbrev queued_state : System
queued_state = record { now = 0; table = record { rows = coa_row ∷ []; next_id = 1 }; running = [] }

abbrev claimed_state : System
claimed_state = record {
  now = 0;
  table = record { rows = claimed 0 "a" 300 coa_row ∷ []; next_id = 1 };
  running = claimed 0 "a" 300 coa_row ∷ [];
}

claimed_prompt : ReachPrompt 300 backoff claimed_state
unfolding enqueue_context claim_next claim_from
claimed_prompt =
    ReachPrompt.later {s = queued_state}
      (ReachPrompt.later {s = empty 300 backoff} ReachPrompt.start (λ c m. elim m [ ])
        (Step.enqueue coa []))
      (λ c m. elim m [ ]) (Step.claim "a" network)

ReachPrompt-IsExclusive_example : IsExclusive claimed_state.table.rows claimed_state.running
ReachPrompt-IsExclusive_example = ReachPrompt-IsExclusive claimed_prompt

claimed-Reach : Reach 300 backoff claimed_state
unfolding enqueue_context claim_next claim_from
claimed-Reach =
    Reach.later {s = queued_state}
      (Reach.later {s = empty 300 backoff} Reach.start (Step.enqueue coa []))
      (Step.claim "a" network)

Reach-IsSound_example : IsSound 0 claimed_state.table
Reach-IsSound_example = Reach-IsSound claimed-Reach

crashed_task_reclaimed_example :
    Memᴰ (claimed 400 "b" 300 (reap_row 400 (claimed 0 "a" 300 coa_row))) (
      handed_out 1 400 "b" 300 "network_commands"
        (reap_expired_leases 400 (claimed 0 "a" 300 coa_row ∷ [])))
crashed_task_reclaimed_example =
    crashed_task_reclaimed 400 "b" 300 (claimed 0 "a" 300 coa_row) claimed-Reach (omega arith)
      (Memᴰ.head refl) refl

late_failure_exceeds_example :
    (r : Row) × (finish 600 backoff (claimed 0 "a" 300 coa_row) (some ("timeout", false)) (
        finish 500 backoff
          (claimed 400 "b" 300 (reap_row 400 (claimed 0 "a" 300 coa_row)))
          (some ("timeout", false))
          (claimed_twice "network_commands" "a" "b" "timeout" "timeout" 300 backoff 0 400 coa_row))
      ≡ r ∷ [])
    × (r.id ≡ 0)
    × (r.status ≡ pending)
    × (r.retry_count ≡ suc r.max_retry)
late_failure_exceeds_example =
    late_failure_exceeds "network_commands" "a" "b" "timeout" "timeout" 300 backoff 0 400 500 600
      coa_row refl refl (omega arith)
