-- ===== src/Jobqueue/Retries.antt =====
-- server.go: how often a task is run, and how long the waits are.
use Prim.Native.Nat.{min}
use isp.Common.{
  ℕ, zero, suc, ◌+◌, ◌-◌, ap, ◌*◌, ◌≤◌, ◌<◌, ◌≡◌, ◌↔◌, refl, ◌∙◌, String, eq_iff, true, false, none,
  some, List, [], ◌∷◌, leb, if◌then◌else◌, arith, Bool-cases, inl, inr,
}
use isp.Common.Clock.{Time, Duration, second, hour}
use isp.Common.Bytes.{length}
use isp.Jobqueue.Task.{Task, Options, pending, dead, Row, row_of}
use isp.Jobqueue.Server.{
  backoff, is_due, claimed, claim_from, dead_row, retried_row, finish, completed_row,
  sweep_retained, run,
}

-- The wait before the next attempt is between ten seconds and two hours, and never shrinks from one
-- attempt to the next, whatever the counter holds.
pub backoff_bounds :
    (n : ℕ) → (10 * second ≤ backoff n) × (backoff n ≤ 2 * hour) × (backoff n ≤ backoff (suc n))
backoff_bounds zero = (omega arith, omega arith, omega arith)
backoff_bounds (suc zero) = (omega arith, omega arith, omega arith)
backoff_bounds (suc (suc zero)) = (omega arith, omega arith, omega arith)
backoff_bounds (suc (suc (suc zero))) = (omega arith, omega arith, omega arith)
backoff_bounds (suc (suc (suc (suc zero)))) = (omega arith, omega arith, omega arith)
backoff_bounds (suc (suc (suc (suc (suc zero))))) = (omega arith, omega arith, omega arith)
backoff_bounds (suc (suc (suc (suc (suc (suc zero)))))) = (omega arith, omega arith, omega arith)
backoff_bounds (suc (suc (suc (suc (suc (suc (suc zero))))))) =
    (omega arith, omega arith, omega arith)
backoff_bounds (suc (suc (suc (suc (suc (suc (suc (suc n)))))))) =
    (omega arith, omega arith, omega arith)

module _ (worker q err : String) (lease : Duration) where
  -- One poll of a worker on the queue, with a handler that always fails.
  unfoldable pub failing_poll : Time → List Row → List Row
  failing_poll now rows =
      let c = claim_from now worker lease q rows in
      elim c.1 [
        | none ↦ rows
        | some ct ↦ run now backoff (λ typ. some (λ r. some (err, false))) ct c.0
      ]

  unfoldable pub failing_polls : List Time → List Row → List Row
  failing_polls [] rows = rows
  failing_polls (t ∷ ts) rows = failing_polls ts (failing_poll t rows)

  -- How many of the polls run a task.
  unfoldable pub runs_of : List Time → List Row → ℕ
  runs_of [] rows = 0
  runs_of (t ∷ ts) rows =
      (elim (claim_from t worker lease q rows).1 [ none ↦ 0 | some ct ↦ 1 ])
      + runs_of ts (failing_poll t rows)

  -- From the first instant on, polls that are at least the longest wait apart.
  abbrev pub Spaced : Time → List Time → Type 0
  Spaced a [] = Unit
  Spaced a (t ∷ ts) = (a ≤ t) × Spaced (t + 2 * hour) ts

  after_failure : Time → Row → Row
  after_failure now r =
      if leb r.max_retry r.retry_count
      then dead_row now err (claimed now worker lease r)
      else retried_row now err (backoff r.retry_count) (claimed now worker lease r)

  failing_poll-due :
      (now : Time) (r : Row)
      → is_due now q r ≡ true
      → failing_poll now (r ∷ []) ≡ after_failure now r ∷ []
  unfolding failing_poll claim_from run finish after_failure
  failing_poll-due now r h = ground (arith, h)

  failing_poll-dead : (now : Time) (r : Row) → r.status ≡ dead → failing_poll now (r ∷ []) ≡ r ∷ []
  unfolding failing_poll claim_from
  failing_poll-dead now r h = ground (arith, h)

  runs_of-due :
      (now : Time) (ts : List Time) (r : Row)
      → is_due now q r ≡ true
      → runs_of (now ∷ ts) (r ∷ []) ≡ suc (runs_of ts (failing_poll now (r ∷ [])))
  unfolding runs_of claim_from
  runs_of-due now ts r h = ground (arith, h)

  -- A dead task is not claimed.
  runs_of-dead : (ts : List Time) (r : Row) → r.status ≡ dead → runs_of ts (r ∷ []) ≡ 0
  unfolding runs_of claim_from
  runs_of-dead [] r h = refl
  runs_of-dead (t ∷ ts) r h =
      let none_due : (claim_from t worker lease q (r ∷ [])).1 ≡ none = ground (arith, h) in
      rw (runs_of, failing_poll-dead t r h) (ground (arith, none_due, runs_of-dead ts r h))

  due_of :
      (now : Time) (r : Row)
      → r.status ≡ pending
      → r.queue ≡ q
      → r.run_after ≤ now
      → is_due now q r ≡ true
  due_of now r h k l = ground (arith, h, k, eq_iff r.queue q)

  -- Once dead, a task is not run again.
  failing_polls-dead :
      (ts : List Time) (r : Row) → r.status ≡ dead → failing_polls ts (r ∷ []) ≡ r ∷ []
  unfolding failing_polls
  failing_polls-dead [] r h = refl
  failing_polls-dead (t ∷ ts) r h =
      rw (failing_polls, failing_poll-dead t r h) (failing_polls-dead ts r h)

  -- A task that always fails, alone on its queue, is run once and then as often as it may be retried,
  -- each poll at least the longest wait after the one before; then it is dead, stays so and is never
  -- run again.
  pub failing_task_dies :
      (ts : List Time) (a : Time) (r : Row)
      → r.status ≡ pending
      → r.queue ≡ q
      → r.run_after ≤ a
      → r.retry_count ≤ r.max_retry
      → Spaced a ts
      → (r' : Row) × (failing_polls ts (r ∷ []) ≡ r' ∷ [])
        × (r'.status ≡ (if leb (r.retry_count + length ts) r.max_retry then pending else dead))
        × (r'.retry_count ≡ min (r.retry_count + length ts) r.max_retry)
        × (runs_of ts (r ∷ []) ≡ min (length ts) (suc r.max_retry - r.retry_count))
  unfolding failing_polls after_failure runs_of
  failing_task_dies [] a r h k l m n = (r, refl, ground (arith, h), omega arith, omega arith)
  failing_task_dies (t ∷ ts) a r h k l m n =
      let due = due_of t r h k (omega (arith, n.0)) in
      let polled = failing_poll-due t r due in
      elim (Bool-cases (leb r.max_retry r.retry_count)) [
        | inl e ↦
            let r' = dead_row t err (claimed t worker lease r) in
            let one : failing_poll t (r ∷ []) ≡ r' ∷ [] = polled ∙ rw (after_failure, e) refl in
            (
              r',
              rw (failing_polls, one) (failing_polls-dead ts r' refl),
              ground (arith, e),
              ground (arith, e, m),
              runs_of-due t ts r due
                  ∙ ap (λ l. suc (runs_of ts l)) one
                  ∙ ap suc (runs_of-dead ts r' refl)
                  ∙ ground (arith, e, m),
            )
        | inr e ↦
            let r' = retried_row t err (backoff r.retry_count) (claimed t worker lease r) in
            let one : failing_poll t (r ∷ []) ≡ r' ∷ [] = polled ∙ rw (after_failure, e) refl in
            let (r'', x, y, z, u) =
              failing_task_dies ts (t + 2 * hour) r' refl k
                (omega (arith, (backoff_bounds r.retry_count).1)) (ground (arith, e)) n.1 in
            (
              r'',
              rw (failing_polls, one) x,
              ground (arith, y),
              ground (arith, z),
              runs_of-due t ts r due
                  ∙ ap (λ l. suc (runs_of ts l)) one
                  ∙ ap suc u
                  ∙ ground (arith, e),
            )
      ]

-- The retention of a task counts from the moment it is queued, not from when it finishes: a finished
-- row goes with the first sweep after that, however recently it finished.
pub retention_from_enqueue :
    (queued_at finished_at now : Time) (id : ℕ) (task : Task) (o : Options)
    → 0 < o.retention
    → (sweep_retained now (completed_row finished_at (row_of queued_at id task o) ∷ []) ≡ [])
      ↔ (queued_at + o.retention * second < now)
retention_from_enqueue queued_at finished_at now id task o h = ground arith
