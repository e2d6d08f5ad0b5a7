-- ===== src/Examples/Dunning.antt =====
-- Three subscribers on the dunning ladder.
use isp.Common.{
  Option, ℕ, ◌≡◌, ◌≢◌, ◌≤◌, ◌↔◌, ◌+◌, ◌-◌, ◌*◌, refl, inr, Bool, true, false, none, some, [], ◌∷◌,
  arith, if◌then◌else◌, ◌==◌,
}
use isp.Common.Clock.{Time, day}
use isp.Billing.Dunning.{
  Notice, DunningState, remind_1d, hard_suspended, Row, World, DunningCandidate, is_lapsed,
  stage_by_expiry, next_dunning_state, advance, scan, ok, no_path,
}
use isp.Billing.Dunning.Ladder.{lapsed_iff}
use isp.Billing.Dunning.Advance.{moved, advance_arrives, renewal_stuck}
use isp.Billing.Dunning.Scan.{only, scan_isolates}

abbrev now : Time
now = 800000 * day

abbrev row : Row
row = record { state = remind_1d; plan_expiry = now - 7 * day; status = "active" }

abbrev world : World
world = record { row = λ id. if id == 4 then some row else none; notices = [] }

abbrev late : DunningCandidate
late = record { subscriber_id = 4; state = remind_1d; plan_expiry = now - 7 * day }

abbrev early : DunningCandidate
early = record { subscriber_id = 5; state = remind_1d; plan_expiry = now + 5 * day }

abbrev never_fails : ℕ → DunningState → Bool
never_fails id s = false

abbrev takes_all : Option (Notice → Bool)
takes_all = some (λ n. false)

-- The database refuses to hard-suspend subscriber 5.
abbrev sometimes_fails : ℕ → DunningState → Bool
sometimes_fails id s = id == 5

lapsed_iff_example : (is_lapsed (stage_by_expiry (3 * day) (8 * day)) ≡ true) ↔ (3 * day ≤ 8 * day)
lapsed_iff_example = lapsed_iff (3 * day) (8 * day)

advance_arrives_example :
    ((advance never_fails takes_all late hard_suspended now world).1 ≡ ok)
    × ((advance never_fails takes_all late hard_suspended now world).0.row 4
        ≡ some (moved hard_suspended row))
    × ((j : ℕ)
        → j ≢ 4
        → (advance never_fails takes_all late hard_suspended now world).0.row j ≡ world.row j)
advance_arrives_example =
    advance_arrives never_fails takes_all 4 (λ s. refl) (λ n. refl) late hard_suspended now world
      row refl refl refl (λ e. cc) (inr (omega arith))

renewal_stuck_example :
    advance never_fails takes_all early (next_dunning_state remind_1d (now + 5 * day) now) now world
    ≡ (world, no_path)
renewal_stuck_example =
    renewal_stuck never_fails takes_all early now world refl (omega arith) (omega arith)

scan_isolates_example :
    (scan sometimes_fails takes_all now (early ∷ late ∷ []) world).row 4
    ≡ (scan sometimes_fails takes_all now
          (only sometimes_fails takes_all 4 (early ∷ late ∷ []))
          world).row
        4
scan_isolates_example = scan_isolates sometimes_fails takes_all now 4 (early ∷ late ∷ []) world
