-- ===== src/Examples/Jobqueue.antt =====
-- A queue with two tasks and two workers.
use Prim.Native.Nat.{min}
use isp.Common.{◌+◌, ◌-◌, ◌*◌, ◌<◌, ◌≡◌, ◌↔◌, refl, List, [], ◌∷◌, leb, if◌then◌else◌, arith}
use isp.Common.Clock.{second, hour}
use isp.Jobqueue.Task.{Row, Task, Options, pending, dead, row_of}
use isp.Jobqueue.Server.{completed_row, sweep_retained}
use isp.Jobqueue.Retries.{failing_polls, runs_of, failing_task_dies, retention_from_enqueue}

abbrev options : Options
options = record {
  queue = "network_commands";
  max_retry = 1;
  timeout = 0;
  retention = 60;
  task_id = "";
  process_in = 0;
}

abbrev task : Task
task = record { typ = "coa"; payload = []; opts = options }

abbrev first : Row
first = row_of 5 1 task options

abbrev second_row : Row
second_row = row_of 6 2 task options

abbrev rows : List Row
rows = second_row ∷ first ∷ []

failing_task_dies_example :
    (r : Row) × (failing_polls "a" "network_commands" "timeout" 300
        (10 ∷ 3 * hour ∷ [])
        (first ∷ [])
      ≡ r ∷ [])
    × (r.status ≡ (if leb (0 + 2) 1 then pending else dead))
    × (r.retry_count ≡ min (0 + 2) 1)
    × (runs_of "a" "network_commands" "timeout" 300 (10 ∷ 3 * hour ∷ []) (first ∷ [])
        ≡ min 2 (2 - 0))
failing_task_dies_example =
    failing_task_dies "a" "network_commands" "timeout" 300 (10 ∷ 3 * hour ∷ []) 10 first refl refl
      (omega arith) (omega arith) (omega arith, (omega arith, tt))

retention_from_enqueue_example :
    (sweep_retained (70 * second) (completed_row (69 * second) (row_of 5 1 task options) ∷ []) ≡ [])
    ↔ (5 + 60 * second < 70 * second)
retention_from_enqueue_example =
    retention_from_enqueue 5 (69 * second) (70 * second) 1 task options (omega arith)
