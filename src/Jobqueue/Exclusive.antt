-- ===== src/Jobqueue/Exclusive.antt =====
-- server.go: while workers report before their leases are over, a row has one worker at most, and no
-- task is retried more often than it may be.
use mathlib.Core.Path.{subst}
use mathlib.Core.List.{Memᴰ}
use isp.Common.{
  ℕ, suc, ◌≤◌, ◌≡◌, refl, sym, inl, inr, String, Bool, false, Option, List, arith, Bool-cases,
}
use isp.Common.Clock.{Time, Duration}
use isp.Jobqueue.Task.{Row, Table}
use isp.Jobqueue.Server.{
  update, claimed, claim_next, finish, reap_row, reap_expired_leases, sweep_retained, completed_row,
  dead_row, retried_row, has_expired_lease,
}
use isp.Jobqueue.Rows.{
  of_update, update-other, of_remove, remove-other, of_reap, in_reap, of_sweep, in_sweep,
}
use isp.Jobqueue.Statements.{claim_next-rows, finish-rows}
use isp.Jobqueue.Locks.{IsSound}
use isp.Jobqueue.Kept.{Reach-IsSound, ReachPrompt-Reach}
use isp.Jobqueue.Holders.{
  IsExclusive, taken_in, of_taken, Taken-Apart, others, enqueue-IsExclusive, claim-IsExclusive,
}
use isp.Jobqueue.System.{System, Taken, Step, ReachPrompt, IsPrompt, start_running}

-- A report on a row that a worker holds: the other workers' rows stay as they are.
report-IsExclusive :
    (now : Time) (delay : ℕ → Duration) (ct : Row) (outcome : Option (String × Bool)) (t : Table)
    {running rest : List Row}
    → IsSound now t
    → Taken ct running rest
    → IsExclusive t.rows running
    → IsExclusive (finish now delay ct outcome t.rows) rest
report-IsExclusive now delay ct outcome t {running} {rest} s k x =
    elim (finish-rows now delay ct outcome t.rows) [
      | inl e ↦
          subst (λ rows. IsExclusive rows rest) (sym e)
            (record {
              held = λ c m.
                  remove-other ct.id c t.rows (x.held c (of_taken ct c k m))
                    (others ct c k x.apart m);
              held_processing = λ c m. x.held_processing c (of_taken ct c k m);
              apart = Taken-Apart ct k x.apart;
              bounded = λ r m. x.bounded r (of_remove ct.id r t.rows m).0;
            })
      | inr (inl e) ↦
          subst (λ rows. IsExclusive rows rest) (sym e)
            (updated (completed_row now) (λ o m i. x.bounded o m))
      | inr (inr (err, inl e)) ↦
          subst (λ rows. IsExclusive rows rest) (sym e)
            (updated (dead_row now err) (λ o m i. x.bounded o m))
      | inr (inr (err, inr (e, h))) ↦
          subst (λ rows. IsExclusive rows rest) (sym e)
            (updated (retried_row now err (delay ct.retry_count)) (λ o m i.
              let same : o ≡ ct = s.keyed o ct m (x.held ct (taken_in ct k)) i in
              subst (λ y. suc y.retry_count ≤ y.max_retry) (sym same) (omega (arith, h))))
    ]
  where
    updated :
        (f : Row → Row)
        → ((o : Row) → Memᴰ o t.rows → o.id ≡ ct.id → (f o).retry_count ≤ (f o).max_retry)
        → IsExclusive (update ct.id f t.rows) rest
    updated f b = record {
      held = λ c m.
          update-other ct.id f c t.rows (x.held c (of_taken ct c k m)) (others ct c k x.apart m);
      held_processing = λ c m. x.held_processing c (of_taken ct c k m);
      apart = Taken-Apart ct k x.apart;
      bounded = λ r m. elim (of_update ct.id f r t.rows m) [
        | inl (k', h) ↦ x.bounded r k'
        | inr (o, k', h, e) ↦ subst (λ y. y.retry_count ≤ y.max_retry) (sym e) (b o k' h)
      ];
    }

reap_row-counts :
    (now : Time) (r : Row)
    → ((reap_row now r).retry_count ≡ r.retry_count) × ((reap_row now r).max_retry ≡ r.max_retry)
reap_row-counts now r = elim (Bool-cases (has_expired_lease now r)) [
  | inl e ↦ (rw e refl, rw e refl)
  | inr e ↦ (rw e refl, rw e refl)
]

reap-IsExclusive :
    (now : Time) (rows running : List Row)
    → ((c : Row) → Memᴰ c running → has_expired_lease now c ≡ false)
    → IsExclusive rows running
    → IsExclusive (reap_expired_leases now rows) running
reap-IsExclusive now rows running prompt x = record {
  held = λ c m.
      let stays : reap_row now c ≡ c = rw (prompt c m) refl in
      subst (λ y. Memᴰ y (reap_expired_leases now rows)) stays (in_reap now c rows (x.held c m));
  held_processing = x.held_processing;
  apart = x.apart;
  bounded = λ r m.
      let (o, k, e) = of_reap now r rows m in
      let b = x.bounded o k in
      let c = reap_row-counts now o in
      subst (λ y. y.retry_count ≤ y.max_retry) (sym e) (omega (arith, c.0, c.1, b));
}

sweep-IsExclusive :
    (now : Time) (rows running : List Row)
    → IsExclusive rows running
    → IsExclusive (sweep_retained now rows) running
sweep-IsExclusive now rows running x = record {
  held =
      λ c m. let p = x.held_processing c m in in_sweep now c rows (x.held c m) (ground (arith, p));
  held_processing = x.held_processing;
  apart = x.apart;
  bounded = λ r m. x.bounded r (of_sweep now r rows m);
}

crash-IsExclusive :
    (ct : Row) (rows : List Row) {running rest : List Row}
    → Taken ct running rest
    → IsExclusive rows running
    → IsExclusive rows rest
crash-IsExclusive ct rows k x = record {
  held = λ c m. x.held c (of_taken ct c k m);
  held_processing = λ c m. x.held_processing c (of_taken ct c k m);
  apart = Taken-Apart ct k x.apart;
  bounded = x.bounded;
}

module _ {lease : Duration} {delay : ℕ → Duration} where
  step-IsExclusive :
      {s t : System}
      → IsSound s.now s.table
      → IsPrompt s
      → Step lease delay s t
      → IsExclusive s.table.rows s.running
      → IsExclusive t.table.rows t.running
  step-IsExclusive sound p (Step.tick n h) x = x
  step-IsExclusive {s} sound p (Step.enqueue task opts) x =
      enqueue-IsExclusive s.now task opts s.table s.running x
  step-IsExclusive {s} sound p (Step.claim w order) x =
      elim (claim_next-rows s.now w lease order s.table.rows) [
        | inl (e, n) ↦
            subst
              (λ rows.
                IsExclusive rows
                  (start_running (claim_next s.now w lease order s.table.rows).1 s.running))
              (sym e) (subst (λ o. IsExclusive s.table.rows (start_running o s.running)) (sym n) x)
        | inr (q, r, m, due, e, n) ↦
            subst
              (λ rows.
                IsExclusive rows
                  (start_running (claim_next s.now w lease order s.table.rows).1 s.running))
              (sym e)
              (subst
                (λ o.
                  IsExclusive (update r.id (claimed s.now w lease) s.table.rows)
                    (start_running o s.running))
                (sym n) (claim-IsExclusive s.now w lease q r s.table s.running sound m due x))
      ]
  step-IsExclusive {s} sound p (Step.report ct outcome k) x =
      report-IsExclusive s.now delay ct outcome s.table sound k x
  step-IsExclusive {s} sound p (Step.crash ct k) x = crash-IsExclusive ct s.table.rows k x
  step-IsExclusive {s} sound p Step.reap x = reap-IsExclusive s.now s.table.rows s.running p x
  step-IsExclusive {s} sound p Step.sweep x = sweep-IsExclusive s.now s.table.rows s.running x

  -- While every worker reports before its lease is over, or has crashed by then, whatever else
  -- happens and in whatever order: each row that a worker holds is in the table as it was claimed, no
  -- two workers hold the same row, and no task has been retried more often than it may be.
  pub ReachPrompt-IsExclusive :
      {s : System} → ReachPrompt lease delay s → IsExclusive s.table.rows s.running
  ReachPrompt-IsExclusive ReachPrompt.start = record {
    held = λ c m. elim m [ ];
    held_processing = λ c m. elim m [ ];
    apart = tt;
    bounded = λ r m. elim m [ ];
  }
  ReachPrompt-IsExclusive (ReachPrompt.later k p step) =
      step-IsExclusive (Reach-IsSound (ReachPrompt-Reach k)) p step (ReachPrompt-IsExclusive k)
