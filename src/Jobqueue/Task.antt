-- ===== src/Jobqueue/Task.antt =====
-- internal/jobqueue/task.go, client.go and inspector.go, and the table of migrations/037: a task, the
-- rows that the queue keeps, what a client puts in and what an inspector reads. Durations of options
-- are whole seconds.
use isp.Common.{
  ℕ, suc, ◌+◌, ◌*◌, String, str_eq, Bool, true, false, ◌&&◌, ◌||◌, Option, none, some, List, [],
  ◌∷◌, ◌++◌, ◌==◌, if◌then◌else◌,
}
use isp.Common.Clock.{Time, second}
use isp.Common.Bytes.{Bytes}

pub record Options : Type 0 where
  pub queue : String
  pub max_retry : ℕ
  pub timeout : ℕ
  pub retention : ℕ
  pub task_id : String
  pub process_in : ℕ

pub record Task : Type 0 where
  pub typ : String
  pub payload : Bytes
  pub opts : Options

abbrev pub default_queue : String
default_queue = "default"

-- `opt(&o)` for every option.
abbrev pub apply_options : List (Options → Options) → Options → Options
apply_options [] o = o
apply_options (f ∷ fs) o = apply_options fs (f o)

abbrev pub new_task : String → Bytes → List (Options → Options) → Task
new_task typ payload opts = record {
  typ = typ;
  payload = payload;
  opts = apply_options opts (record {
    queue = "";
    max_retry = 0;
    timeout = 0;
    retention = 0;
    task_id = "";
    process_in = 0;
  });
}

pub data Status : Type 0 where
  pending processing completed dead : Status

abbrev pub is_pending : Status → Bool
is_pending pending = true
is_pending _ = false

abbrev pub is_processing : Status → Bool
is_processing processing = true
is_processing _ = false

abbrev pub is_finished : Status → Bool
is_finished completed = true
is_finished dead = true
is_finished _ = false

-- A row of jobqueue_tasks.
pub record Row : Type 0 where
  pub id : ℕ
  pub task_id : Option String
  pub queue : String
  pub task_type : String
  pub payload : Bytes
  pub status : Status
  pub max_retry : ℕ
  pub retry_count : ℕ
  pub timeout_seconds : ℕ
  pub run_after : Time
  pub locked_by : Option String
  pub lease_expires_at : Option Time
  pub last_error : Option String
  pub retention_until : Option Time
  pub completed_at : Option Time

pub record Table : Type 0 where
  pub rows : List Row
  pub next_id : ℕ

abbrev pub has_task_id : String → List Row → Bool
has_task_id t [] = false
has_task_id t (r ∷ rs) = elim r.task_id [ none ↦ false | some u ↦ str_eq u t ] || has_task_id t rs

pub data Enqueued : Type 0 where
  queued : ℕ → Enqueued
  task_id_conflict : Enqueued

abbrev pub row_of : Time → ℕ → Task → Options → Row
row_of now id task o = record {
  id = id;
  task_id = if str_eq o.task_id "" then none else some o.task_id;
  queue = if str_eq o.queue "" then default_queue else o.queue;
  task_type = task.typ;
  payload = task.payload;
  status = pending;
  max_retry = o.max_retry;
  retry_count = 0;
  timeout_seconds = o.timeout;
  run_after = now + o.process_in * second;
  locked_by = none;
  lease_expires_at = none;
  last_error = none;
  retention_until = if o.retention == 0 then none else some (now + o.retention * second);
  completed_at = none;
}

-- The insert, unless a row holds the task id, where the database does not refuse the statement. A
-- conflict uses up an id of the sequence.
unfoldable pub enqueue_context : Time → Task → List (Options → Options) → Table → Table × Enqueued
enqueue_context now task opts t =
    let o = apply_options opts task.opts in
    if (if str_eq o.task_id "" then false else has_task_id o.task_id t.rows)
    then (record t { next_id = suc t.next_id }, task_id_conflict)
    else (
      record { rows = t.rows ++ row_of now t.next_id task o ∷ []; next_id = suc t.next_id },
      queued t.next_id,
    )

abbrev pub count_rows : (Row → Bool) → List Row → ℕ
count_rows test [] = 0
count_rows test (r ∷ rs) = (if test r then 1 else 0) + count_rows test rs

unfoldable pub dead_count : String → Table → ℕ
dead_count q t =
    count_rows (λ r. str_eq r.queue q && elim r.status [ dead ↦ true | _ ↦ false ]) t.rows

unfoldable pub queue_depth : String → Table → ℕ
queue_depth q t = count_rows (λ r. str_eq r.queue q && is_pending r.status) t.rows
