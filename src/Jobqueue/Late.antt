-- ===== src/Jobqueue/Late.antt =====
-- server.go, `finish`: a worker that reports after its lease was reaped.
use isp.Common.{ℕ, suc, ◌<◌, ◌+◌, ◌≡◌, refl, String, true, false, none, some, List, [], ◌∷◌, arith}
use isp.Common.Clock.{Time, Duration}
use isp.Jobqueue.Task.{Row, pending}
use isp.Jobqueue.Server.{
  claim_from, claimed, finish, reap_expired_leases, reap_row, is_due, retried_row,
}

module _ (q a b err err' : String) (lease : Duration) (delay : ℕ → Duration) where
  -- The row alone in the table: `a` claims it, the reaper takes it back when `a`'s lease is over, and
  -- `b` claims it.
  unfoldable pub claimed_twice : Time → Time → Row → List Row
  claimed_twice t t' r =
      (claim_from t' b lease q (reap_expired_leases t' (claim_from t a lease q (r ∷ [])).0)).0

  claimed_once :
      (t : Time) (w : String) (r : Row)
      → is_due t q r ≡ true
      → (claim_from t w lease q (r ∷ [])).0 ≡ claimed t w lease r ∷ []
  unfolding claim_from
  claimed_once t w r due = ground (arith, due)

  -- The row as the reaper leaves it.
  freed : Row → Row
  freed r = record r {
    status = pending;
    locked_by = none;
    lease_expires_at = none;
    last_error = some "lease expired; worker presumed dead";
  }

  reap_row-claimed :
      (t t' : Time) (r : Row) → t + lease < t' → reap_row t' (claimed t a lease r) ≡ freed r
  unfolding freed
  reap_row-claimed t t' r late = ground (arith, late)

  claimed_twice-row :
      (t t' : Time) (r : Row)
      → is_due t q r ≡ true
      → t + lease < t'
      → claimed_twice t t' r ≡ claimed t' b lease (freed r) ∷ []
  unfolding claimed_twice freed
  claimed_twice-row t t' r due late =
      rw (claimed_twice, claimed_once t a r due, reap_row-claimed t t' r late)
        (claimed_once t' b (freed r) (ground (arith, due, late)))

  failed :
      (t : Time) (e : String) (ct r : Row)
      → ct.retry_count < ct.max_retry
      → ct.id ≡ r.id
      → finish t delay ct (some (e, false)) (r ∷ []) ≡ retried_row t e (delay ct.retry_count) r ∷ []
  unfolding finish
  failed t e ct r h i = ground (arith, h, i)

  -- The reports do not look at who holds the row: when `b` has failed and `a` fails too, each on the
  -- count that it claimed, the task is pending with one retry more than it may have.
  pub late_failure_exceeds :
      (t t' u u' : Time) (r : Row)
      → is_due t q r ≡ true
      → suc r.retry_count ≡ r.max_retry
      → t + lease < t'
      → (r' : Row) × (finish u' delay (claimed t a lease r) (some (err, false)) (
            finish u delay
              (claimed t' b lease (reap_row t' (claimed t a lease r)))
              (some (err', false))
              (claimed_twice t t' r))
          ≡ r' ∷ [])
        × (r'.id ≡ r.id)
        × (r'.status ≡ pending)
        × (r'.retry_count ≡ suc r'.max_retry)
  unfolding freed
  late_failure_exceeds t t' u u' r due last late =
      let mine = claimed t a lease r in
      let theirs = claimed t' b lease (freed r) in
      let once = retried_row u err' (delay r.retry_count) theirs in
      (
        retried_row u' err (delay r.retry_count) once,
        rw
            (
              claimed_twice-row t t' r due late,
              reap_row-claimed t t' r late,
              failed u err' theirs theirs (omega (arith, last)) refl,
            )
            (failed u' err mine once (omega (arith, last)) refl),
        refl,
        refl,
        omega (arith, last),
      )
