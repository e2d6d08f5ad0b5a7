-- ===== src/Jobqueue/Server.antt =====
-- internal/jobqueue/server.go: the statements of a worker, of the lease reaper and of the sweep, and
-- the backoff. The shuffle of the queue order is left to the caller: `claim_next` takes any order.
use isp.Common.{
  ℕ, zero, suc, ◌+◌, ◌*◌, String, str_eq, Bool, true, false, ◌&&◌, ◌||◌, Option, none, some, List,
  [], ◌∷◌, ◌++◌, ltb, leb, ◌==◌, if◌then◌else◌,
}
use isp.Common.Clock.{Time, Duration, second, minute, hour}
use isp.Jobqueue.Task.{
  pending, processing, completed, dead, is_pending, is_processing, is_finished, Row,
}

pub record WeightedQueue : Type 0 where
  pub name : String
  pub weight : ℕ

abbrev pub repeat : ℕ → String → List String
repeat zero q = []
repeat (suc n) q = q ∷ repeat n q

-- The queue names, each as often as it weighs, before the shuffle.
abbrev pub selection_order : List WeightedQueue → List String
selection_order [] = []
selection_order (q ∷ qs) = repeat q.weight q.name ++ selection_order qs

-- `NewServer` raises a weight below 1 to 1.
abbrev pub new_queue : String → ℕ → WeightedQueue
new_queue name weight = record { name = name; weight = if ltb weight 1 then 1 else weight }

abbrev pub is_due : Time → String → Row → Bool
is_due now q r = is_pending r.status && (str_eq r.queue q && leb r.run_after now)

-- `ORDER BY run_after, id`
abbrev pub is_before : Row → Row → Bool
is_before a b = ltb a.run_after b.run_after || (a.run_after == b.run_after && ltb a.id b.id)

abbrev pub first_due : Time → String → List Row → Option Row
first_due now q [] = none
first_due now q (r ∷ rs) =
    let rest = first_due now q rs in
    if is_due now q r
    then elim rest [ none ↦ some r | some b ↦ if is_before b r then some b else some r ]
    else rest

-- `UPDATE ... WHERE id = $1`, and the matching `DELETE`.
abbrev pub update : ℕ → (Row → Row) → List Row → List Row
update id f [] = []
update id f (r ∷ rs) = (if r.id == id then f r else r) ∷ update id f rs

abbrev pub remove : ℕ → List Row → List Row
remove id [] = []
remove id (r ∷ rs) = let rest = remove id rs in if r.id == id then rest else r ∷ rest

abbrev pub claimed : Time → String → Duration → Row → Row
claimed now worker lease r = record r {
  status = processing;
  locked_by = some worker;
  lease_expires_at = some (now + lease);
}

-- The claim: the rows after it, and the row that it returns.
unfoldable pub claim_from : Time → String → Duration → String → List Row → List Row × Option Row
claim_from now worker lease q rows = elim (first_due now q rows) [
  | none ↦ (rows, none)
  | some r ↦ (update r.id (claimed now worker lease) rows, some (claimed now worker lease r))
]

unfoldable pub claim_next :
    Time → String → Duration → List String → List Row → List Row × Option Row
claim_next now worker lease [] rows = (rows, none)
claim_next now worker lease (q ∷ qs) rows =
    let rest = claim_next now worker lease qs rows in
    let r = claim_from now worker lease q rows in elim r.1 [ none ↦ rest | some t ↦ r ]

abbrev pub backoff_schedule : List Duration
backoff_schedule =
    10 * second
    ∷ 30 * second
    ∷ 1 * minute
    ∷ 5 * minute
    ∷ 15 * minute
    ∷ 30 * minute
    ∷ 1 * hour
    ∷ 2 * hour
    ∷ []

-- The entry, or the last one.
abbrev pub entry_or_last : ℕ → Duration → List Duration → Duration
entry_or_last n last [] = last
entry_or_last zero last (d ∷ ds) = d
entry_or_last (suc n) last (d ∷ ds) = entry_or_last n d ds

abbrev pub backoff : ℕ → Duration
backoff n = entry_or_last n 0 backoff_schedule

abbrev pub is_exhausted : Row → Bool → Bool
is_exhausted ct skip_retry = skip_retry || leb ct.max_retry ct.retry_count

abbrev pub completed_row : Time → Row → Row
completed_row now r = record r {
  status = completed;
  completed_at = some now;
  locked_by = none;
  lease_expires_at = none;
  last_error = none;
}

abbrev pub dead_row : Time → String → Row → Row
dead_row now err r = record r {
  status = dead;
  completed_at = some now;
  last_error = some err;
  locked_by = none;
  lease_expires_at = none;
}

abbrev pub retried_row : Time → String → Duration → Row → Row
retried_row now err delay r = record r {
  status = pending;
  retry_count = suc r.retry_count;
  last_error = some err;
  run_after = now + delay;
  locked_by = none;
  lease_expires_at = none;
}

-- The outcome of an execution, on the row as it was claimed: no error, or an error that skips the
-- retries or not. `delay` is the backoff, or what the configuration puts in its place.
unfoldable pub finish : Time → (ℕ → Duration) → Row → Option (String × Bool) → List Row → List Row
finish now delay ct none rows = elim ct.retention_until [
  | none ↦ remove ct.id rows
  | some t ↦ update ct.id (completed_row now) rows
]
finish now delay ct (some (err, skip_retry)) rows =
    if is_exhausted ct skip_retry
    then update ct.id (dead_row now err) rows
    else update ct.id (retried_row now err (delay ct.retry_count)) rows

-- The handlers of a mux, by task type; an error comes with whether it is, or wraps, `SkipRetry`.
unfoldable pub run :
    Time
    → (ℕ → Duration)
    → (String → Option (Row → Option (String × Bool)))
    → Row
    → List Row
    → List Row
run now delay handler_for ct rows = elim (handler_for ct.task_type) [
  | none ↦ finish now delay ct (some ("jobqueue: no handler registered", true)) rows
  | some handler ↦ finish now delay ct (handler ct) rows
]

abbrev pub has_expired_lease : Time → Row → Bool
has_expired_lease now r =
    is_processing r.status && elim r.lease_expires_at [ none ↦ false | some t ↦ ltb t now ]

abbrev pub reap_row : Time → Row → Row
reap_row now r =
    if has_expired_lease now r
    then record r {
      status = pending;
      locked_by = none;
      lease_expires_at = none;
      last_error = some "lease expired; worker presumed dead";
    }
    else r

abbrev pub reap_expired_leases : Time → List Row → List Row
reap_expired_leases now [] = []
reap_expired_leases now (r ∷ rs) = reap_row now r ∷ reap_expired_leases now rs

abbrev pub is_past_retention : Time → Row → Bool
is_past_retention now r =
    is_finished r.status && elim r.retention_until [ none ↦ false | some t ↦ ltb t now ]

abbrev pub sweep_retained : Time → List Row → List Row
sweep_retained now [] = []
sweep_retained now (r ∷ rs) =
    let rest = sweep_retained now rs in if is_past_retention now r then rest else r ∷ rest
