-- ===== src/Billing/Dunning/Advance.antt =====
-- dunning_scanner.go, `advance`: which walks along the ladder end where they should.
use isp.Common.{
  Option, none, Option-cases, ℕ, zero, suc, ◌+◌, ◌*◌, ◌≤◌, ◌<◌, ◌≡◌, refl, ◌∙◌, ◌≢◌, ◌⊎◌, inl, inr,
  Bool, true, false, some, arith, Bool-cases,
}
use mathlib.Core.Path.{subst, sym, ap}
use isp.Common.Clock.{Time, day}
use isp.Billing.Dunning.{
  Notice, template_for_dunning_state, notice_of, DunningState, active, remind_1d, rung, same_state,
  is_listed, valid_transitions, stage_by_expiry, next_dunning_state, step_toward, rung_above,
  transition_dunning, walk, advance, notice_for, World, Row, Outcome, ok, no_path, DunningCandidate,
  dunning_to_subscriber_status, put_row, max_steps,
}

-- The subscriber's row once a transition to the target has gone through: the stage and the status
-- that RADIUS enforces have moved together.
abbrev pub moved : DunningState → Row → Row
moved target r = record r { state = target; status = dunning_to_subscriber_status target }

-- A world in which that row is the subscriber's, and that is otherwise the world before.
pub record Landed (id : ℕ) (r : Row) (w w' : World) : Type 0 where
  pub at : w'.row id ≡ some r
  pub others : (j : ℕ) → j ≢ id → w'.row j ≡ w.row j
  pub same_notices : w'.notices ≡ w.notices

eq_of-same_state : (s t : DunningState) → same_state s t ≡ true → s ≡ t
eq_of-same_state s t h = ground arith

step_up :
    (s t : DunningState)
    → rung s < rung t
    → (step_toward s t ≡ some (rung_above s))
      × (rung (rung_above s) ≡ rung s + 1)
      × (is_listed s (rung_above s) valid_transitions ≡ true)
      × (same_state s t ≡ false)
unfolding step_toward
step_up s t h = ground arith

put_row-Landed : (id : ℕ) (r : Row) (w : World) → Landed id r w (put_row id r w)
put_row-Landed id r w = record {
  at = ground arith;
  others = λ j h. ground arith;
  same_notices = refl;
}

Landed-trans :
    (id : ℕ) (r r' : Row) (w w' w'' : World)
    → Landed id r w w'
    → Landed id r' w' w''
    → Landed id r' w w''
Landed-trans id r r' w w' w'' l m = record {
  at = m.at;
  others = λ j h. m.others j h ∙ l.others j h;
  same_notices = m.same_notices ∙ l.same_notices;
}

-- The queue, if there is one, takes the notices.
abbrev pub Takes : Option (Notice → Bool) → Type 0
Takes none = Unit
Takes (some refuses) = (n : Notice) → refuses n ≡ false

module _ (set_fails : ℕ → DunningState → Bool) (client : Option (Notice → Bool)) (id : ℕ)
    (works : (u : DunningState) → set_fails id u ≡ false) (takes : Takes client) where
  transition-ok :
      (target : DunningState) (w : World) (r : Row)
      → w.row id ≡ some r
      → is_listed r.state target valid_transitions ≡ true
      → transition_dunning set_fails id target w ≡ (put_row id (moved target r) w, ok)
  unfolding transition_dunning
  transition-ok target w r e v = ground (arith, works target)

  walk_there :
      (n : ℕ) (s t : DunningState) (w : World)
      → same_state s t ≡ true
      → walk set_fails client n id s t w ≡ (w, ok)
  unfolding walk
  walk_there zero s t w h = ground arith
  walk_there (suc n) s t w h = ground arith

  walk_step :
      (n : ℕ) (s t u : DunningState) (w w' : World)
      → same_state s t ≡ false
      → step_toward s t ≡ some u
      → transition_dunning set_fails id u w ≡ (w', ok)
      → walk set_fails client (suc n) id s t w ≡ walk set_fails client n id u t w'
  unfolding walk
  walk_step n s t u w w' h e f = ground arith

  -- A climb takes one round for each rung.
  climb :
      (n : ℕ) (s t : DunningState) (w : World) (r : Row)
      → w.row id ≡ some r
      → r.state ≡ s
      → rung s < rung t
      → rung t ≤ rung s + n
      → ((walk set_fails client n id s t w).1 ≡ ok)
        × Landed id (moved t r) w (walk set_fails client n id s t w).0
  climb zero s t w r e es lo hi = absurd (omega arith)
  climb (suc n) s t w r e es lo hi =
      let (toward, next, valid, differ) = step_up s t lo in
      let w' = put_row id (moved (rung_above s) r) w in
      let stepped =
        walk_step n s t (rung_above s) w w' differ toward
          (transition-ok (rung_above s) w r e (rw es valid)) in
      let landed = put_row-Landed id (moved (rung_above s) r) w in
      elim (Bool-cases (same_state (rung_above s) t)) [
        | inl there ↦
            let stops = stepped ∙ walk_there n (rung_above s) t w' there in
            rw stops (
              refl,
              subst (λ u. Landed id (moved u r) w w') (eq_of-same_state (rung_above s) t there)
                  landed,
            )
        | inr below ↦
            let (fine, ends) =
              climb n (rung_above s) t w' (moved (rung_above s) r) landed.at refl (ground arith)
                (omega arith) in
            rw stepped (fine, Landed-trans id _ _ w w' _ landed ends)
      ]

  notice_for-row :
      (c : DunningCandidate) (t : DunningState) (now : Time) (w : World)
      → ((notice_for set_fails client c t now w).1 ≡ ok)
        × ((j : ℕ) → (notice_for set_fails client c t now w).0.row j ≡ w.row j)
  unfolding notice_for
  notice_for-row c t now w = elim (Option-cases client) [
    | inl e ↦ rw (notice_for, e) (refl, λ j. refl)
    | inr (refuses, e) ↦ elim (Option-cases (template_for_dunning_state t)) [
      | inl f ↦ rw (notice_for, e, f) (refl, λ j. refl)
      | inr (template, f) ↦
          let all = subst Takes e takes in
          rw (notice_for, e, f, all (notice_of c t now template)) (refl, λ j. refl)
    ]
  ]

  advance-row :
      (c : DunningCandidate) (t : DunningState) (now : Time) (w : World) (r : Row)
      → (walk set_fails client max_steps id c.state t w).1 ≡ ok
      → Landed id r w (walk set_fails client max_steps id c.state t w).0
      → c.subscriber_id ≡ id
      → ((advance set_fails client c t now w).1 ≡ ok)
        × ((advance set_fails client c t now w).0.row id ≡ some r)
        × ((j : ℕ) → j ≢ id → (advance set_fails client c t now w).0.row j ≡ w.row j)
  unfolding advance
  advance-row c t now w r fine l e =
      let walked = (walk set_fails client max_steps id c.state t w).0 in
      let (told, same) = notice_for-row c t now walked in
      let step : advance set_fails client c t now w ≡ notice_for set_fails client c t now walked =
        rw (advance, e, fine) refl in
      (
        ap (λ (p : World × Outcome). p.1) step ∙ told,
        ap (λ (p : World × Outcome). p.0.row id) step ∙ same id ∙ l.at,
        λ j h. ap (λ (p : World × Outcome). p.0.row j) step ∙ same j ∙ l.others j h,
      )

  restore :
      (s : DunningState) (w : World) (r : Row)
      → w.row id ≡ some r
      → r.state ≡ s
      → s ≢ active
      → walk set_fails client max_steps id s active w ≡ (put_row id (moved active r) w, ok)
  unfolding step_toward
  restore s w r e es ne =
      walk_step 7 s active active w (put_row id (moved active r) w) (ground arith) refl
        (transition-ok active w r e (rw es (ground arith)))
      ∙ walk_there 7 active active (put_row id (moved active r) w) refl

  -- While the database accepts the writes and the notices, the scanner moves a subscriber to `active`, or to any
  -- higher stage, in one call: the stage and the status arrive together, and nobody else is touched.
  -- The bound of eight rounds is never what stops it.
  pub advance_arrives :
      (c : DunningCandidate) (t : DunningState) (now : Time) (w : World) (r : Row)
      → c.subscriber_id ≡ id
      → w.row id ≡ some r
      → r.state ≡ c.state
      → c.state ≢ t
      → (t ≡ active) ⊎ (rung c.state < rung t)
      → ((advance set_fails client c t now w).1 ≡ ok)
        × ((advance set_fails client c t now w).0.row id ≡ some (moved t r))
        × ((j : ℕ) → j ≢ id → (advance set_fails client c t now w).0.row j ≡ w.row j)
  advance_arrives c t now w r ec e es ne (inl home) = rw home (
      let once = restore c.state w r e es (λ p. ne (p ∙ sym home)) in
      advance-row c active now w (moved active r) (ap (λ (p : World × Outcome). p.1) once)
        (subst (λ (p : World × Outcome). Landed id (moved active r) w p.0) (sym once)
          (put_row-Landed id (moved active r) w))
        ec)
  advance_arrives c t now w r ec e es ne (inr above) =
      let (fine, landed) = climb max_steps c.state t w r e es above (ground arith) in
      advance-row c t now w (moved t r) fine landed ec

-- A stage below the present one other than `active` is never reached: the call fails and the world
-- is as it was, whatever the database would accept.
pub advance_down :
    (set_fails : ℕ → DunningState → Bool) (client : Option (Notice → Bool)) (c : DunningCandidate)
    (t : DunningState) (now : Time) (w : World)
    → t ≢ active
    → rung t < rung c.state
    → advance set_fails client c t now w ≡ (w, no_path)
unfolding advance walk step_toward
advance_down set_fails client c t now w ne h = ground arith

-- So a subscriber who is one day from expiry and renews by a plan that ends within seven days stays
-- where they are: the scanner wants an earlier reminder stage, and there is no way back to it.
pub renewal_stuck :
    (set_fails : ℕ → DunningState → Bool) (client : Option (Notice → Bool)) (c : DunningCandidate)
    (now : Time) (w : World)
    → c.state ≡ remind_1d
    → now + 1 * day < c.plan_expiry
    → c.plan_expiry ≤ now + 7 * day
    → advance set_fails client c (next_dunning_state c.state c.plan_expiry now) now w ≡ (w, no_path)
renewal_stuck set_fails client c now w e lo hi =
    let low : (next_dunning_state c.state c.plan_expiry now ≢ active)
        × (rung (next_dunning_state c.state c.plan_expiry now) < rung c.state) =
      unfold next_dunning_state stage_by_expiry in ground arith in
    advance_down set_fails client c (next_dunning_state c.state c.plan_expiry now) now w low.0 low.1
