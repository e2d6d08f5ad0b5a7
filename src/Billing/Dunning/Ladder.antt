-- ===== src/Billing/Dunning/Ladder.antt =====
-- dunning_scanner.go, `NextDunningState` and `stepToward`: the ladder as a function of the expiry.
use isp.Common.{◌≤◌, ◌≡◌, ◌↔◌, ◌≢◌, true, some, arith}
use isp.Common.Clock.{Time}
use isp.Billing.Dunning.{
  DunningState, rung, is_listed, valid_transitions, stage_by_expiry, is_lapsed, next_dunning_state,
  step_toward,
}

-- As time goes on a subscriber whose expiry does not move only climbs.
pub stage_by_expiry_mono :
    (expiry now later : Time)
    → now ≤ later
    → rung (stage_by_expiry expiry now) ≤ rung (stage_by_expiry expiry later)
unfolding stage_by_expiry
stage_by_expiry_mono expiry now later h = ground arith

-- Service is withheld, or about to be, exactly when the expiry has passed.
pub lapsed_iff :
    (expiry now : Time) → (is_lapsed (stage_by_expiry expiry now) ≡ true) ↔ (expiry ≤ now)
unfolding stage_by_expiry
lapsed_iff expiry now = ground arith

-- Two scans at one instant bring every subscriber, from whatever stage, to the stage that the expiry
-- alone says, and a third changes nothing: a restoration takes the one extra step.
pub next_dunning_state_settles :
    (s : DunningState) (expiry now : Time)
    → (next_dunning_state (next_dunning_state s expiry now) expiry now ≡ stage_by_expiry expiry now)
      × (next_dunning_state (stage_by_expiry expiry now) expiry now ≡ stage_by_expiry expiry now)
unfolding next_dunning_state stage_by_expiry
next_dunning_state_settles s expiry now = ground arith

-- A step that `stepToward` proposes is a legal transition, and goes to `active` or one rung up.
pub step_toward-valid :
    (s t u : DunningState)
    → s ≢ t
    → step_toward s t ≡ some u
    → is_listed s u valid_transitions ≡ true
unfolding step_toward
step_toward-valid s t u ne e = ground arith
