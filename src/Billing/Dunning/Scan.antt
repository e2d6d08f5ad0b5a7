-- ===== src/Billing/Dunning/Scan.antt =====
-- dunning_scanner.go, `Scan`: one candidate's failure or success is nobody else's.
use isp.Common.{
  Option, ℕ, zero, suc, ◌≡◌, refl, sym, ap, ◌∙◌, ◌≢◌, Bool, true, false, none, some, List, [], ◌∷◌,
  inl, inr, arith, ◌==◌, Bool-cases, Option-cases, if◌then◌else◌,
}
use mathlib.Core.Path.{subst, subst₂}
use isp.Common.Clock.{Time}
use isp.Billing.Dunning.{
  notice_of, DunningState, World, Outcome, DunningCandidate, Notice, transition_dunning, walk,
  advance, notice_for, next_dunning_state, same_state, step_toward, scan_one, scan, is_ok,
  max_steps, has_task, enqueue, template_for_dunning_state,
}

module _ (set_fails : ℕ → DunningState → Bool) (client : Option (Notice → Bool)) where
  transition-other :
      (id j : ℕ) (u : DunningState) (w : World)
      → j ≢ id
      → (transition_dunning set_fails id u w).0.row j ≡ w.row j
  unfolding transition_dunning
  transition-other id j u w ne = ground arith

  walk-other :
      (n id j : ℕ) (s t : DunningState) (w : World)
      → j ≢ id
      → (walk set_fails client n id s t w).0.row j ≡ w.row j
  unfolding walk
  walk-other zero id j s t w ne = refl
  walk-other (suc n) id j s t w ne = elim (Option-cases (step_toward s t)) [
    | inl e ↦ ground arith
    | inr (u, e) ↦ ground (
      arith,
      transition-other id j u w ne,
      walk-other n id j u t (transition_dunning set_fails id u w).0 ne,
    )
  ]

  transition-same :
      (id : ℕ) (u : DunningState) (w w' : World)
      → w.row id ≡ w'.row id
      → ((transition_dunning set_fails id u w).0.row id
          ≡ (transition_dunning set_fails id u w').0.row id)
        × ((transition_dunning set_fails id u w).1 ≡ (transition_dunning set_fails id u w').1)
  unfolding transition_dunning
  transition-same id u w w' e = ground arith

  -- The three ways a round can go.
  walk_stop :
      (n id : ℕ) (s t : DunningState) (w : World)
      → same_state s t ≡ true
      → walk set_fails client (suc n) id s t w ≡ (w, Outcome.ok)
  unfolding walk
  walk_stop n id s t w h = ground arith

  walk_stuck :
      (n id : ℕ) (s t : DunningState) (w : World)
      → same_state s t ≡ false
      → step_toward s t ≡ none
      → walk set_fails client (suc n) id s t w ≡ (w, Outcome.no_path)
  unfolding walk
  walk_stuck n id s t w h e = ground arith

  walk_on :
      (n id : ℕ) (s t u : DunningState) (w : World)
      → same_state s t ≡ false
      → step_toward s t ≡ some u
      → walk set_fails client (suc n) id s t w ≡ (
          if is_ok (transition_dunning set_fails id u w).1
          then walk set_fails client n id u t (transition_dunning set_fails id u w).0
          else transition_dunning set_fails id u w)
  unfolding walk
  walk_on n id s t u w h e = ground arith

  -- Two runs agree on one subscriber.
  abbrev Agree : ℕ → World × Outcome → World × Outcome → Type 0
  Agree id a b = (a.0.row id ≡ b.0.row id) × (a.1 ≡ b.1)

  walk-same :
      (n id : ℕ) (s t : DunningState) (w w' : World)
      → w.row id ≡ w'.row id
      → Agree id (walk set_fails client n id s t w) (walk set_fails client n id s t w')
  walk-same zero id s t w w' e = unfold walk in (e, refl)
  walk-same (suc n) id s t w w' e = elim (Bool-cases (same_state s t)) [
    | inl there ↦
        subst₂ (Agree id) (sym (walk_stop n id s t w there)) (sym (walk_stop n id s t w' there))
          (e, refl)
    | inr away ↦ elim (Option-cases (step_toward s t)) [
      | inl stuck ↦
          subst₂ (Agree id) (sym (walk_stuck n id s t w away stuck))
            (sym (walk_stuck n id s t w' away stuck)) (e, refl)
      | inr (u, step) ↦
          let same = transition-same id u w w' e in
          let rest =
            walk-same n id u t (transition_dunning set_fails id u w).0
              (transition_dunning set_fails id u w').0 same.0 in
          subst₂ (Agree id) (sym (walk_on n id s t u w away step))
            (sym (walk_on n id s t u w' away step))
            (elim (Bool-cases (is_ok (transition_dunning set_fails id u w).1)) [
              | inl fine ↦ rw (fine, sym (ap is_ok same.1) ∙ fine) rest
              | inr failed ↦ rw (failed, sym (ap is_ok same.1) ∙ failed) same
            ])
    ]
  ]

  notice_for-rows :
      (c : DunningCandidate) (t : DunningState) (now : Time) (w : World)
      → (notice_for set_fails client c t now w).0.row ≡ w.row
  unfolding notice_for
  notice_for-rows c t now w = elim (Option-cases client) [
    | inl off ↦ rw (notice_for, off) refl
    | inr (refuses, on) ↦ elim (Option-cases (template_for_dunning_state t)) [
      | inl silent ↦ rw (notice_for, on, silent) refl
      | inr (template, e) ↦ elim (Bool-cases (refuses (notice_of c t now template))) [
        | inl r ↦ rw (notice_for, on, e, r) refl
        | inr r ↦ rw (notice_for, on, e, r) refl
      ]
    ]
  ]

  -- `advance` does to the rows what its walk does.
  advance-rows :
      (c : DunningCandidate) (t : DunningState) (now : Time) (w : World)
      → (advance set_fails client c t now w).0.row
        ≡ (walk set_fails client max_steps c.subscriber_id c.state t w).0.row
  unfolding advance
  advance-rows c t now w =
      let walked = walk set_fails client max_steps c.subscriber_id c.state t w in
      elim (Bool-cases (is_ok walked.1)) [
        | inl fine ↦ rw (advance, fine) (notice_for-rows c t now walked.0)
        | inr failed ↦ rw (advance, failed) refl
      ]

  scan_one-other :
      (now : Time) (c : DunningCandidate) (j : ℕ) (w : World)
      → j ≢ c.subscriber_id
      → (scan_one set_fails client now c w).row j ≡ w.row j
  unfolding scan_one
  scan_one-other now c j w ne = ground (
    arith,
    ap (λ r. r j) (advance-rows c (next_dunning_state c.state c.plan_expiry now) now w),
    walk-other max_steps c.subscriber_id j c.state (next_dunning_state c.state c.plan_expiry now) w
        ne,
  )

  scan_one-same :
      (now : Time) (c : DunningCandidate) (w w' : World)
      → w.row c.subscriber_id ≡ w'.row c.subscriber_id
      → (scan_one set_fails client now c w).row c.subscriber_id
        ≡ (scan_one set_fails client now c w').row c.subscriber_id
  unfolding scan_one
  scan_one-same now c w w' e = ground (
    arith,
    ap (λ r. r c.subscriber_id)
        (advance-rows c (next_dunning_state c.state c.plan_expiry now) now w),
    ap (λ r. r c.subscriber_id)
        (advance-rows c (next_dunning_state c.state c.plan_expiry now) now w'),
    walk-same max_steps c.subscriber_id c.state (next_dunning_state c.state c.plan_expiry now) w w'
        e,
  )

  -- The candidates that are one subscriber's.
  abbrev pub only : ℕ → List DunningCandidate → List DunningCandidate
  only id [] = []
  only id (c ∷ cs) = if c.subscriber_id == id then c ∷ only id cs else only id cs

  scan-only :
      (now : Time) (id : ℕ) (cs : List DunningCandidate) (w w' : World)
      → w.row id ≡ w'.row id
      → (scan set_fails client now cs w).row id ≡ (scan set_fails client now (only id cs) w').row id
  unfolding scan
  scan-only now id [] w w' e = e
  scan-only now id (c ∷ cs) w w' e = elim (Bool-cases (c.subscriber_id == id)) [
    | inl own ↦
        let same : c.subscriber_id ≡ id = ground arith in
        rw own (
          scan-only now id cs (scan_one set_fails client now c w)
            (scan_one set_fails client now c w')
            (subst
              (λ j.
                (scan_one set_fails client now c w).row j
                ≡ (scan_one set_fails client now c w').row j)
              same (scan_one-same now c w w' (subst (λ j. w.row j ≡ w'.row j) (sym same) e))))
    | inr foreign ↦ rw foreign (
        scan-only now id cs (scan_one set_fails client now c w) w'
          (scan_one-other now c id w (ground arith) ∙ e))
  ]

  -- One bad row cannot stall collections: what a scan makes of a subscriber is what it would make of
  -- them with no other candidate in the list, whichever of the others' writes fail.
  pub scan_isolates :
      (now : Time) (id : ℕ) (cs : List DunningCandidate) (w : World)
      → (scan set_fails client now cs w).row id ≡ (scan set_fails client now (only id cs) w).row id
  scan_isolates now id cs w = scan-only now id cs w w refl

  abbrev pub DistinctTasks : List Notice → Type 0
  DistinctTasks [] = Unit
  DistinctTasks (n ∷ ns) = (has_task n ns ≡ false) × DistinctTasks ns

  enqueue-DistinctTasks :
      (n : Notice) (ns : List Notice) → DistinctTasks ns → DistinctTasks (enqueue n ns)
  enqueue-DistinctTasks n ns d = elim (Bool-cases (has_task n ns)) [
    | inl old ↦ rw (old, enqueue) d
    | inr new ↦ rw (new, enqueue) (new, d)
  ]

  transition-notices :
      (id : ℕ) (u : DunningState) (w : World)
      → (transition_dunning set_fails id u w).0.notices ≡ w.notices
  unfolding transition_dunning
  transition-notices id u w = ground arith

  walk-notices :
      (n id : ℕ) (s t : DunningState) (w : World)
      → (walk set_fails client n id s t w).0.notices ≡ w.notices
  unfolding walk
  walk-notices zero id s t w = refl
  walk-notices (suc n) id s t w = elim (Option-cases (step_toward s t)) [
    | inl e ↦ ground arith
    | inr (u, e) ↦ ground (
      arith,
      transition-notices id u w,
      walk-notices n id u t (transition_dunning set_fails id u w).0,
    )
  ]

  notice_for-DistinctTasks :
      (c : DunningCandidate) (t : DunningState) (now : Time) (w : World)
      → DistinctTasks w.notices
      → DistinctTasks (notice_for set_fails client c t now w).0.notices
  unfolding notice_for
  notice_for-DistinctTasks c t now w d = elim (Option-cases client) [
    | inl off ↦ rw (notice_for, off) d
    | inr (refuses, on) ↦ elim (Option-cases (template_for_dunning_state t)) [
      | inl silent ↦ rw (notice_for, on, silent) d
      | inr (template, e) ↦ elim (Bool-cases (refuses (notice_of c t now template))) [
        | inl r ↦ rw (notice_for, on, e, r) d
        | inr r ↦
            rw (notice_for, on, e, r)
              (enqueue-DistinctTasks (notice_of c t now template) w.notices d)
      ]
    ]
  ]

  scan_one-DistinctTasks :
      (now : Time) (c : DunningCandidate) (w : World)
      → DistinctTasks w.notices
      → DistinctTasks (scan_one set_fails client now c w).notices
  unfolding scan_one advance
  scan_one-DistinctTasks now c w d =
      let t = next_dunning_state c.state c.plan_expiry now in
      let walked = walk set_fails client max_steps c.subscriber_id c.state t w in
      let kept : DistinctTasks walked.0.notices =
        subst DistinctTasks (sym (walk-notices max_steps c.subscriber_id c.state t w)) d in
      elim (Bool-cases (same_state t c.state)) [
        | inl stays ↦ rw (stays, scan_one) d
        | inr moves ↦ elim (Bool-cases (is_ok walked.1)) [
          | inl fine ↦ rw (moves, fine, scan_one) (notice_for-DistinctTasks c t now walked.0 kept)
          | inr failed ↦ rw (moves, failed, scan_one) kept
        ]
      ]

  -- No subscriber is sent one notice twice: however often a scan repeats a stage of a cycle that the
  -- queue still holds, no two queued notices have the same subscriber, stage and expiry.
  pub scan-DistinctTasks :
      (now : Time) (cs : List DunningCandidate) (w : World)
      → DistinctTasks w.notices
      → DistinctTasks (scan set_fails client now cs w).notices
  unfolding scan
  scan-DistinctTasks now [] w d = d
  scan-DistinctTasks now (c ∷ cs) w d =
      scan-DistinctTasks now cs (scan_one set_fails client now c w)
        (scan_one-DistinctTasks now c w d)
