-- ===== src/Jobqueue/Statements.antt =====
-- client.go and server.go: what is in the table after a statement, case by case.
use mathlib.Core.List.{Memᴰ}
use isp.Common.{
  ℕ, suc, ◌<◌, ◌≡◌, ◌⊎◌, refl, ap, ◌∙◌, inl, inr, String, str_eq, Bool, true, false, Option, none,
  some, List, [], ◌∷◌, ◌++◌, if◌then◌else◌, arith, Bool-cases, Option-cases,
}
use isp.Common.Clock.{Time, Duration}
use isp.Jobqueue.Task.{
  Task, Options, Row, Table, apply_options, row_of, has_task_id, enqueue_context,
}
use isp.Jobqueue.Server.{
  update, remove, claimed, claim_next, claim_from, finish, is_exhausted, completed_row, dead_row,
  retried_row, is_due,
}
use isp.Jobqueue.Claims.{claim_from-claimed}

-- The table after an enqueue: with one id used up, or with one row more, whose task id no row has.
pub enqueue_context-rows :
    (now : Time) (task : Task) (opts : List (Options → Options)) (t : Table)
    → ((enqueue_context now task opts t).0 ≡ record t { next_id = suc t.next_id })
      ⊎ ((o : Options) × ((enqueue_context now task opts t).0
            ≡ record { rows = t.rows ++ row_of now t.next_id task o ∷ []; next_id = suc t.next_id })
          × ((if str_eq o.task_id "" then false else has_task_id o.task_id t.rows) ≡ false))
unfolding enqueue_context
enqueue_context-rows now task opts t =
    let o = apply_options opts task.opts in
    elim (Bool-cases (if str_eq o.task_id "" then false else has_task_id o.task_id t.rows)) [
      | inl e ↦ inl (rw e refl)
      | inr e ↦ inr (o, rw e refl, e)
    ]

-- The table after a claim: as it was, or with one due row claimed, which the claim hands out.
pub claim_next-rows :
    (now : Time) (w : String) (d : Duration) (order : List String) (rows : List Row)
    → ((claim_next now w d order rows).0 ≡ rows) × ((claim_next now w d order rows).1 ≡ none)
      ⊎ ((q : String) × (r : Row) × Memᴰ r rows
          × (is_due now q r ≡ true)
          × ((claim_next now w d order rows).0 ≡ update r.id (claimed now w d) rows)
          × ((claim_next now w d order rows).1 ≡ some (claimed now w d r)))
unfolding claim_next
claim_next-rows now w d [] rows = inl (refl, refl)
claim_next-rows now w d (q ∷ qs) rows = elim (Option-cases (claim_from now w d q rows).1) [
  | inl e ↦
      let step : claim_next now w d (q ∷ qs) rows ≡ claim_next now w d qs rows =
        rw (claim_next, e) refl in
      rw step (claim_next-rows now w d qs rows)
  | inr (t, e) ↦
      let step : claim_next now w d (q ∷ qs) rows ≡ claim_from now w d q rows = ground (arith, e) in
      let (r, m, due, same, rows_are) = claim_from-claimed now w d q rows t e in
      rw step (inr (q, r, m, due, rows_are, e ∙ ap some same))
]

-- The table after a report: without the row, or with the row finished, or with it pending again.
pub finish-rows :
    (now : Time) (delay : ℕ → Duration) (ct : Row) (outcome : Option (String × Bool))
    (rows : List Row)
    → (finish now delay ct outcome rows ≡ remove ct.id rows)
      ⊎ ((finish now delay ct outcome rows ≡ update ct.id (completed_row now) rows)
          ⊎ ((err : String) × ((finish now delay ct outcome rows
                  ≡ update ct.id (dead_row now err) rows)
                ⊎ ((finish now delay ct outcome rows
                      ≡ update ct.id (retried_row now err (delay ct.retry_count)) rows)
                    × (ct.retry_count < ct.max_retry)))))
unfolding finish
finish-rows now delay ct none rows = elim (Option-cases ct.retention_until) [
  | inl e ↦ inl (rw e refl)
  | inr (t, e) ↦ inr (inl (rw e refl))
]
finish-rows now delay ct (some (err, skip)) rows = elim (Bool-cases (is_exhausted ct skip)) [
  | inl e ↦ inr (inr (err, inl (rw e refl)))
  | inr e ↦ inr (inr (err, inr (rw e refl, ground (arith, e))))
]
