-- ===== src/Fup/Scanner.antt =====
-- internal/fup/scanner.go, with the statements of internal/db/fup.go that it uses. A subscriber is
-- joined with the plan and with the octets of the open sessions, as the queries join them. What
-- `fmt.Sprintf` and `json.Marshal` make is a field of `Formats`; which statements the database refuses
-- is a field of `Faults`; its queries answer. Metrics and log lines are left out.
use Prim.Native.String.{◌++◌ as ◌<>◌}
use isp.Common.{
  ℕ, ◌*◌, ◌/◌, String, str_eq, Bool, true, false, not, ◌&&◌, ◌||◌, Option, none, some, List, [],
  ◌∷◌, leb, ltb, ◌==◌, if◌then◌else◌,
}
use isp.Common.Clock.{Time}
use isp.Common.Bytes.{Bytes}
use isp.Jobqueue.Task.{Task, Table, Enqueued, new_task, enqueue_context}

-- A subscriber. `is_online` says that a session is open; `nas_ip` and `bytes_used` are of the open ones.
pub record Subscriber : Type 0 where
  pub id : ℕ
  pub username : String
  pub nas_ip : String
  pub status : String
  pub is_online : Bool
  pub fup_threshold : ℕ
  pub bytes_used : ℕ
  pub fup_active : Bool
  pub fup_throttle : String
  pub speed_override : Option String
  pub override_expires_at : Option Time

pub record SessionStats : Type 0 where
  pub subscriber_id : ℕ
  pub username : String
  pub nas_ip : String
  pub fup_threshold : ℕ
  pub bytes_used : ℕ
  pub fup_active : Bool
  pub fup_throttle : String

abbrev pub stats_of : Subscriber → SessionStats
stats_of r = record {
  subscriber_id = r.id;
  username = r.username;
  nas_ip = r.nas_ip;
  fup_threshold = r.fup_threshold;
  bytes_used = r.bytes_used;
  fup_active = r.fup_active;
  fup_throttle = r.fup_throttle;
}

abbrev pub is_served : Subscriber → Bool
is_served r = str_eq r.status "active" || str_eq r.status "grace_period"

-- The `WHERE` of `GetActiveSessionsAboveFUP`.
unfoldable pub is_above : Subscriber → Bool
is_above r =
    r.is_online
    && (ltb 0 r.fup_threshold
        && (not r.fup_active && (leb r.fup_threshold r.bytes_used && is_served r)))

-- And of `GetSessionsAtWarning`.
unfoldable pub is_at_warning : ℕ → Subscriber → Bool
is_at_warning pct r =
    r.is_online
    && (ltb 0 r.fup_threshold
        && (not r.fup_active
            && (leb (r.fup_threshold * pct / 100) r.bytes_used
                && (ltb r.bytes_used r.fup_threshold && is_served r))))

abbrev pub sessions_where : (Subscriber → Bool) → List Subscriber → List SessionStats
sessions_where test [] = []
sessions_where test (r ∷ rs) =
    let rest = sessions_where test rs in if test r then stats_of r ∷ rest else rest

unfoldable pub get_active_sessions_above_fup : List Subscriber → List SessionStats
get_active_sessions_above_fup rows = sessions_where is_above rows

unfoldable pub get_sessions_at_warning : ℕ → List Subscriber → List SessionStats
get_sessions_at_warning pct rows =
    sessions_where (is_at_warning (if leb pct 0 || leb 100 pct then 80 else pct)) rows

abbrev pub has_id : ℕ → List Subscriber → Bool
has_id id [] = false
has_id id (r ∷ rs) = r.id == id || has_id id rs

abbrev pub update : ℕ → (Subscriber → Subscriber) → List Subscriber → List Subscriber
update id f [] = []
update id f (r ∷ rs) = (if r.id == id then f r else r) ∷ update id f rs

-- `ListExpiredSpeedOverrides`
abbrev pub list_expired_speed_overrides : Time → List Subscriber → List ℕ
list_expired_speed_overrides now [] = []
list_expired_speed_overrides now (r ∷ rs) =
    let rest = list_expired_speed_overrides now rs in
    if elim r.override_expires_at [ none ↦ false | some t ↦ leb t now ] then r.id ∷ rest else rest

pub record Formats : Type 0 where
  -- `%d`
  pub decimal : ℕ → String
  pub coa_payload : ℕ → String → Bytes
  pub revert_payload : ℕ → Option Bytes
  pub warning_payload : ℕ → String → ℕ → Bytes
  pub throttled_payload : ℕ → String → String → Option Bytes

pub record Faults : Type 0 where
  pub refuses_flag : ℕ → Bool
  pub refuses_clear : ℕ → Bool
  pub refuses_task : Task → Bool

pub record Fup : Type 0 where
  pub subscribers : List Subscriber
  pub queue : Table

-- A statement on one subscriber: `none` where it fails or finds no row.
abbrev pub write_row : (ℕ → Bool) → ℕ → (Subscriber → Subscriber) → Fup → Option Fup
write_row refuses id f s =
    if refuses id
    then none
    else if has_id id s.subscribers
    then some (record s { subscribers = update id f s.subscribers })
    else none

abbrev pub flagged : Subscriber → Subscriber
flagged r = record r { fup_active = true }

abbrev pub cleared : Subscriber → Subscriber
cleared r = record r { speed_override = none; override_expires_at = none }

-- `decimal.IntPart` of the quotient.
unfoldable pub usage_pct : ℕ → ℕ → ℕ
usage_pct bytes_used threshold = if threshold == 0 then 0 else bytes_used * 100 / threshold

-- Options of a task on the queue, with a day's retention.
abbrev pub task_on : String → String → ℕ → String → Bytes → Task
task_on typ queue max_retry task_id payload = new_task typ payload (
    (λ o. record o { queue = queue })
    ∷ (λ o. record o { task_id = task_id })
    ∷ (λ o. record o { max_retry = max_retry })
    ∷ (λ o. record o { retention = 86400 })
    ∷ [])

abbrev pub coa_task : Bytes → Task
coa_task payload = task_on "network:coa_send" "network_commands" 5 "" payload

abbrev pub put : Table → Fup → Fup
put t s = record s { queue = t }

abbrev pub is_breach : SessionStats → Bool
is_breach x = not (x.fup_threshold == 0 || x.fup_active) && leb x.fup_threshold x.bytes_used

module _ (fmt : Formats) (faults : Faults) where
  abbrev pub warning_task_id : ℕ → ℕ → String
  warning_task_id id threshold = ("fupwarn-" <> fmt.decimal id) <> ("-" <> fmt.decimal threshold)

  abbrev pub throttled_task_id : ℕ → ℕ → String
  throttled_task_id id threshold =
      ("fupthrottled-" <> fmt.decimal id) <> ("-" <> fmt.decimal threshold)

  -- `EnqueueContext`: `none` where the database refuses the statement.
  unfoldable pub enqueue : Time → Task → Fup → Option (Fup × Enqueued)
  enqueue now task s =
      let r = enqueue_context now task [] s.queue in
      if faults.refuses_task task then none else some (put r.0 s, r.1)

  abbrev pub throttled_task : SessionStats → Bytes → Task
  throttled_task x payload =
      task_on "notif:fup_throttled" "notifications" 3
        (throttled_task_id x.subscriber_id x.fup_threshold) payload

  -- A conflict and a failure both leave the scan going.
  unfoldable pub enqueue_throttled_notice : Time → SessionStats → Fup → Fup
  enqueue_throttled_notice now x s =
      elim (fmt.throttled_payload x.subscriber_id x.username x.fup_throttle) [
        | none ↦ s
        | some payload ↦ elim (enqueue now (throttled_task x payload) s) [
          | none ↦ s
          | some (s', r) ↦ s'
        ]
      ]

  -- `false` with the state is the error that ends the scan.
  abbrev pub coa_sent : Time → SessionStats → Fup → Option (Fup × Enqueued) → Fup × Bool
  coa_sent now x s none = (s, false)
  coa_sent now x s (some r) = (enqueue_throttled_notice now x r.0, true)

  abbrev pub flag_set : Time → SessionStats → Fup → Option Fup → Fup × Bool
  flag_set now x s none = (s, true)
  flag_set now x s (some s') =
      coa_sent now x s' (enqueue now (coa_task (fmt.coa_payload x.subscriber_id x.nas_ip)) s')

  unfoldable pub breach : Time → SessionStats → Fup → Fup × Bool
  breach now x s =
      if is_breach x
      then flag_set now x s (write_row faults.refuses_flag x.subscriber_id flagged s)
      else (s, true)

  unfoldable pub breaches_of : Time → List SessionStats → Fup → Fup × Bool
  breaches_of now [] s = (s, true)
  breaches_of now (x ∷ xs) s =
      let b = breach now x s in let rest = breaches_of now xs b.0 in if b.1 then rest else b

  unfoldable pub scan_breaches : Time → Fup → Fup × Bool
  scan_breaches now s = breaches_of now (get_active_sessions_above_fup s.subscribers) s

  unfoldable pub reverts_of : Time → List ℕ → Fup → Fup
  reverts_of now [] s = s
  reverts_of now (id ∷ ids) s =
      let rest = reverts_of now ids in
      elim (write_row faults.refuses_clear id cleared s) [
        | none ↦ rest s
        | some s' ↦ elim (fmt.revert_payload id) [
          | none ↦ rest s'
          | some payload ↦ elim (enqueue now (coa_task payload) s') [
            | none ↦ rest s'
            | some (s'', r) ↦ rest s''
          ]
        ]
      ]

  unfoldable pub scan_expired_overrides : Time → Fup → Fup
  scan_expired_overrides now s = reverts_of now (list_expired_speed_overrides now s.subscribers) s

  abbrev pub warning_task : SessionStats → Task
  warning_task x =
      task_on "notif:fup_warning" "notifications" 3
        (warning_task_id x.subscriber_id x.fup_threshold)
        (fmt.warning_payload x.subscriber_id x.username (usage_pct x.bytes_used x.fup_threshold))

  unfoldable pub warnings_of : Time → List SessionStats → Fup → Fup × Bool
  warnings_of now [] s = (s, true)
  warnings_of now (x ∷ xs) s =
      let rest = warnings_of now xs in
      if x.fup_threshold == 0 || x.fup_active
      then rest s
      else elim (enqueue now (warning_task x) s) [ none ↦ (s, false) | some (s', r) ↦ rest s' ]

  unfoldable pub scan_warnings : Time → Fup → Fup × Bool
  scan_warnings now s = warnings_of now (get_sessions_at_warning 80 s.subscribers) s

  -- `scan`
  unfoldable pub scan : Time → Fup → Fup × Bool
  scan now s =
      let b = scan_breaches now s in
      if b.1 then scan_warnings now (scan_expired_overrides now b.0) else b
