-- ===== src/Jobqueue/System.antt =====
-- server.go: the queue with its clients and its workers, interleaved in any order. Each statement is
-- one step; between its claim and its `finish` a worker holds the row as the claim returned it.
use mathlib.Core.List.{Memᴰ}
use isp.Common.{ℕ, ◌≤◌, ◌≡◌, String, Bool, false, Option, none, some, List, [], ◌∷◌}
use isp.Common.Clock.{Time, Duration}
use isp.Jobqueue.Task.{Task, Options, Row, Table, enqueue_context}
use isp.Jobqueue.Server.{claim_next, finish, reap_expired_leases, sweep_retained, has_expired_lease}

pub record System : Type 0 where
  pub now : Time
  pub table : Table
  -- the rows that workers have claimed and not yet reported on
  pub running : List Row

-- `rest` is the list without one occurrence of the element.
pub data Taken (r : Row) : List Row → List Row → Type 0 where
  here : {rest : List Row} → Taken r (r ∷ rest) rest
  there : {x : Row} {rows rest : List Row} → Taken r rows rest → Taken r (x ∷ rows) (x ∷ rest)

abbrev pub set_rows : List Row → Table → Table
set_rows rows t = record t { rows = rows }

abbrev pub start_running : Option Row → List Row → List Row
start_running none running = running
start_running (some r) running = r ∷ running

-- A claim of the worker, on the table as it is.
abbrev pub claim_table : Time → String → Duration → List String → Table → Table × Option Row
claim_table now worker lease order t =
    let c = claim_next now worker lease order t.rows in (set_rows c.0 t, c.1)

-- No worker still holds a row whose lease is over.
abbrev pub IsPrompt : System → Type 0
IsPrompt s = (ct : Row) → Memᴰ ct s.running → has_expired_lease s.now ct ≡ false

module _ (lease : Duration) (delay : ℕ → Duration) where
  -- A crash is a worker that stops between its claim and its `finish`.
  pub data Step (s : System) : System → Type 0 where
    tick : (later : Time) → s.now ≤ later → Step s (record s { now = later })
    enqueue :
        (task : Task) (opts : List (Options → Options))
        → Step s (record s { table = (enqueue_context s.now task opts s.table).0 })
    claim :
        (worker : String) (order : List String)
        → Step s (record s {
          table = (claim_table s.now worker lease order s.table).0;
          running = start_running (claim_table s.now worker lease order s.table).1 s.running;
        })
    report :
        (ct : Row) (outcome : Option (String × Bool)) {rest : List Row}
        → Taken ct s.running rest
        → Step s (record s {
          table = set_rows (finish s.now delay ct outcome s.table.rows) s.table;
          running = rest;
        })
    crash :
        (ct : Row) {rest : List Row}
        → Taken ct s.running rest
        → Step s (record s { running = rest })
    reap : Step s (record s { table = set_rows (reap_expired_leases s.now s.table.rows) s.table })
    sweep : Step s (record s { table = set_rows (sweep_retained s.now s.table.rows) s.table })

  abbrev pub empty : System
  empty = record { now = 0; table = record { rows = []; next_id = 0 }; running = [] }

  pub data Reach : System → Type 0 where
    start : Reach empty
    later : {s t : System} → Reach s → Step s t → Reach t

  -- Reached while every worker reports before its lease is over, or has crashed by then.
  pub data ReachPrompt : System → Type 0 where
    start : ReachPrompt empty
    later : {s t : System} → ReachPrompt s → IsPrompt s → Step s t → ReachPrompt t
