-- ===== src/Billing/Dunning.antt =====
-- internal/billing/dunning.go and dunning_scanner.go: the ladder from a paid-up subscriber to a hard
-- suspension, the transitions that are legal, and the scanner that walks subscribers along it.
-- A subscriber's row is found by its id; `set_fails` says which writes the database refuses, and `client`
-- is the queue, if there is one, by the notices that it refuses. The
-- scanner compares days as floating-point numbers; at the seven thresholds that is the comparison
-- of nanoseconds written here.
pub mod Ladder
pub mod Advance
pub mod Scan
use isp.Common.{
  ℕ, zero, suc, ◌+◌, ◌-◌, ◌*◌, ◌/◌, String, Bool, true, false, not, ◌&&◌, ◌||◌, Option, none, some,
  List, [], ◌∷◌, ltb, leb, ◌==◌, if◌then◌else◌,
}
use isp.Common.Clock.{Time, Duration, day, second}

pub data DunningState : Type 0 where
  active remind_7d remind_3d remind_1d grace_period soft_suspended hard_suspended : DunningState

-- The stage's place on the ladder, which also tells stages apart.
abbrev pub rung : DunningState → ℕ
rung active = 0
rung remind_7d = 1
rung remind_3d = 2
rung remind_1d = 3
rung grace_period = 4
rung soft_suspended = 5
rung hard_suspended = 6

abbrev pub same_state : DunningState → DunningState → Bool
same_state a b = rung a == rung b

abbrev pub valid_transitions : List (DunningState × DunningState)
valid_transitions =
    (active, remind_7d)
    ∷ (remind_7d, remind_3d)
    ∷ (remind_3d, remind_1d)
    ∷ (remind_1d, grace_period)
    ∷ (grace_period, soft_suspended)
    ∷ (soft_suspended, hard_suspended)
    ∷ (grace_period, active)
    ∷ (soft_suspended, active)
    ∷ (hard_suspended, active)
    ∷ (remind_7d, active)
    ∷ (remind_3d, active)
    ∷ (remind_1d, active)
    ∷ []

abbrev pub is_listed : DunningState → DunningState → List (DunningState × DunningState) → Bool
is_listed from to [] = false
is_listed from to ((f, t) ∷ ts) = (same_state f from && same_state t to) || is_listed from to ts

unfoldable pub dunning_to_subscriber_status : DunningState → String
dunning_to_subscriber_status grace_period = "grace_period"
dunning_to_subscriber_status soft_suspended = "soft_suspended"
dunning_to_subscriber_status hard_suspended = "hard_suspended"
dunning_to_subscriber_status _ = "active"

pub record Row : Type 0 where
  pub state : DunningState
  pub plan_expiry : Time
  pub status : String

pub record Notice : Type 0 where
  pub subscriber_id : ℕ
  pub state : DunningState
  pub expiry_unix : ℕ
  pub template_id : String
  pub days_overdue : ℕ

-- The rows, and the notices that the queue holds, newest first.
pub record World : Type 0 where
  pub row : ℕ → Option Row
  pub notices : List Notice

pub data Outcome : Type 0 where
  ok get_failed set_failed invalid_transition no_path not_reached notice_failed : Outcome

abbrev pub is_ok : Outcome → Bool
is_ok ok = true
is_ok _ = false

abbrev pub put_row : ℕ → Row → World → World
put_row id r w = record w { row = λ j. if id == j then some r else w.row j }

module _ (set_fails : ℕ → DunningState → Bool) where
  unfoldable pub transition_dunning : ℕ → DunningState → World → World × Outcome
  transition_dunning id target w = elim (w.row id) [
    | none ↦ (w, get_failed)
    | some r ↦
        if is_listed r.state target valid_transitions
        then if set_fails id target then (w, set_failed) else (
          put_row id (record r { state = target; status = dunning_to_subscriber_status target }) w,
          ok,
        )
        else (w, invalid_transition)
  ]

abbrev pub grace_period_days : ℕ
grace_period_days = 3

abbrev pub soft_suspend_days : ℕ
soft_suspend_days = 3

-- The second `switch` of `NextDunningState`.
unfoldable pub stage_by_expiry : Time → Time → DunningState
stage_by_expiry expiry now =
    if leb (expiry + (grace_period_days + soft_suspend_days) * day) now
    then hard_suspended
    else if leb (expiry + grace_period_days * day) now
    then soft_suspended
    else if leb expiry now
    then grace_period
    else if leb expiry (now + 1 * day)
    then remind_1d
    else if leb expiry (now + 3 * day)
    then remind_3d
    else if leb expiry (now + 7 * day)
    then remind_7d
    else active

abbrev pub is_lapsed : DunningState → Bool
is_lapsed grace_period = true
is_lapsed soft_suspended = true
is_lapsed hard_suspended = true
is_lapsed _ = false

unfoldable pub next_dunning_state : DunningState → Time → Time → DunningState
next_dunning_state current expiry now =
    if ltb now expiry && is_lapsed current then active else stage_by_expiry expiry now

abbrev pub template_for_dunning_state : DunningState → Option String
template_for_dunning_state active = none
template_for_dunning_state soft_suspended = some "TMPL-004"
template_for_dunning_state hard_suspended = some "TMPL-005"
template_for_dunning_state _ = some "TMPL-003"

-- `ladder[ci + 1]`
abbrev pub rung_above : DunningState → DunningState
rung_above active = remind_7d
rung_above remind_7d = remind_3d
rung_above remind_3d = remind_1d
rung_above remind_1d = grace_period
rung_above grace_period = soft_suspended
rung_above soft_suspended = hard_suspended
rung_above hard_suspended = hard_suspended

unfoldable pub step_toward : DunningState → DunningState → Option DunningState
step_toward current target =
    if same_state target active
    then some active
    else if leb (rung target) (rung current)
    then none
    else some (rung_above current)

pub record DunningCandidate : Type 0 where
  pub subscriber_id : ℕ
  pub state : DunningState
  pub plan_expiry : Time

-- The task id, `DunningNoticeTaskID`, names the subscriber, the stage and the expiry in seconds.
abbrev pub same_task : Notice → Notice → Bool
same_task a b =
    a.subscriber_id == b.subscriber_id
    && (same_state a.state b.state && a.expiry_unix == b.expiry_unix)

abbrev pub has_task : Notice → List Notice → Bool
has_task n [] = false
has_task n (m ∷ ms) = same_task m n || has_task n ms

-- A task whose id the queue holds is not queued again.
abbrev pub enqueue : Notice → List Notice → List Notice
enqueue n ns = if has_task n ns then ns else n ∷ ns

abbrev pub max_steps : ℕ
max_steps = 8

abbrev pub notice_of : DunningCandidate → DunningState → Time → String → Notice
notice_of c target now template = record {
  subscriber_id = c.subscriber_id;
  state = target;
  expiry_unix = c.plan_expiry / second;
  template_id = template;
  days_overdue = (now - c.plan_expiry) / day;
}

module _ (set_fails : ℕ → DunningState → Bool) (client : Option (Notice → Bool)) where
  -- The loop of `advance`, with the rounds left: the state it stops in.
  unfoldable pub walk : ℕ → ℕ → DunningState → DunningState → World → World × Outcome
  walk zero id state target w = (w, if same_state state target then ok else not_reached)
  walk (suc rounds) id state target w =
      if same_state state target then (w, ok) else elim (step_toward state target) [
        | none ↦ (w, no_path)
        | some next ↦
            let (w', result) = transition_dunning set_fails id next w in
            let rest = walk rounds id next target w' in if is_ok result then rest else (w', result)
      ]

  -- The notice for the stage, which the queue may hold already; without a queue there is none.
  unfoldable pub notice_for : DunningCandidate → DunningState → Time → World → World × Outcome
  notice_for c target now w = elim client [
    | none ↦ (w, ok)
    | some refuses ↦ elim (template_for_dunning_state target) [
      | none ↦ (w, ok)
      | some template ↦
          let notice = notice_of c target now template in
          if refuses notice
          then (w, notice_failed)
          else (record w { notices = enqueue notice w.notices }, ok)
    ]
  ]

  unfoldable pub advance : DunningCandidate → DunningState → Time → World → World × Outcome
  advance c target now w =
      let (w', result) = walk max_steps c.subscriber_id c.state target w in
      if is_ok result then notice_for c target now w' else (w', result)

  -- The body of `Scan`'s loop: a failed transition is logged, and the next candidate follows.
  unfoldable pub scan_one : Time → DunningCandidate → World → World
  scan_one now c w =
      let target = next_dunning_state c.state c.plan_expiry now in
      if same_state target c.state then w else (advance c target now w).0

  unfoldable pub scan : Time → List DunningCandidate → World → World
  scan now [] w = w
  scan now (c ∷ cs) w = scan now cs (scan_one now c w)
