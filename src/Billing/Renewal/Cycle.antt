-- ===== src/Billing/Renewal/Cycle.antt =====
-- recurring_billing_scanner.go: the cycle that a renewal opens, the books after a pass, and what a
-- failed write of the expiry leaves.
use Prim.Native.Nat.{max}
use isp.Common.{
  ◌+◌, ◌*◌, some_injective, ◌≡◌, refl, ◌≢◌, ◌⊎◌, sym, ap, ◌∙◌, inl, inr, str_eq, true, false, not,
  ◌&&◌, some, List, [], ◌∷◌, if◌then◌else◌, arith, Bool-cases, Option-cases,
}
use isp.Common.Clock.{Time, day}
use isp.Common.Decimal.{Decimal, IsCents}
use isp.Billing.Gst.{Invoice, calculate_gst_invoice}
use isp.Billing.Gst.Cents.{calculate_gst_invoice-IsCents}
use mathlib.Core.Path.{subst}
use isp.Billing.Dunning.{
  DunningState, active, Row, World, same_state, is_listed, valid_transitions, transition_dunning,
  dunning_to_subscriber_status,
}
use isp.Billing.Wallet.{account_revenue_clearing, account_subscriber_wallet}
use isp.Billing.Wallet.Reconciled.{IsReconciled, post-IsReconciled}
use isp.Billing.Renewal.{
  RenewalCandidate, State, Services, renewed, expiry_failed, build_invoice, renewal_request,
  extend_cycle, set_plan_expiry, activate_subscriber, new_expiry, persist_invoice, restore, renew,
  scan, enqueue_restoration_notice, status_pending_payment,
}
use isp.Billing.Renewal.Charged.{
  Posted-cases, start_cycle-books, start_cycle-cases, charge_of, renew-posted, renew-unpriced,
  renew-refused, Charges, renew-Charges,
}

listed_active :
    (s : DunningState) → is_listed s active valid_transitions ≡ not (same_state s active)
listed_active s = ground arith

eq_of-same_active : (s : DunningState) → same_state s active ≡ true → s ≡ active
eq_of-same_active s h = ground arith

module _ (d : Decimal) (v : Services d.Amount) where
  -- The row after the cycle is extended, whichever statement does it.
  extend_cycle-row :
      (c : RenewalCandidate d.Amount) (t : Time) (w w' : World) (r : Row)
      → w.row c.subscriber_id ≡ some r
      → extend_cycle d v c t w ≡ some w'
      → w'.row c.subscriber_id
        ≡ some (record r {
          plan_expiry = t;
          status = if str_eq c.status status_pending_payment then "active" else r.status;
        })
  unfolding extend_cycle set_plan_expiry activate_subscriber
  extend_cycle-row c t w w' r h e = ground (arith, h, e)

  restore-row :
      (c : RenewalCandidate d.Amount) (t : Time) (s : State d.Amount) (r : Row)
      → s.world.row c.subscriber_id ≡ some r
      → r.state ≡ c.dunning_state
      → v.set_fails c.subscriber_id active ≡ false
      → (restore d v c t s).world.row c.subscriber_id
        ≡ some (record r {
          state = active;
          status = if same_state r.state active then r.status else "active";
        })
  unfolding restore transition_dunning dunning_to_subscriber_status enqueue_restoration_notice
  restore-row c t s r h k f = elim (Bool-cases (same_state c.dunning_state active)) [
    | inl e ↦ ground (arith, e, h, k, eq_of-same_active r.state)
    | inr e ↦ ground (arith, e, h, k, f, listed_active r.state)
  ]

  persist_invoice-world :
      (inv : Invoice d.Amount) (s : State d.Amount) → (persist_invoice d v inv s).world ≡ s.world
  unfolding persist_invoice
  persist_invoice-world inv s = ground arith

  new_expiry-max :
      (c : RenewalCandidate d.Amount) (now : Time)
      → new_expiry c now ≡ max now c.plan_expiry + c.plan_validity_days * day
  unfolding new_expiry
  new_expiry-max c now = ground arith

  -- A renewal that succeeds opens the cycle in the subscriber's row: the expiry is the plan's days
  -- after now, or after a cycle that still runs, the dunning stage is active, and the status is
  -- active if the subscriber was on the ladder or waited for the first payment. The candidate was
  -- read from the row, and the database takes the stage.
  pub renewed_row :
      (c : RenewalCandidate d.Amount) (now : Time) (s : State d.Amount) (r : Row)
      → (renew d v c now s).1 ≡ renewed
      → s.world.row c.subscriber_id ≡ some r
      → (r.state ≡ c.dunning_state) × (r.status ≡ c.status)
      → v.set_fails c.subscriber_id active ≡ false
      → (renew d v c now s).0.world.row c.subscriber_id
        ≡ some (record {
          state = active;
          plan_expiry = max now c.plan_expiry + c.plan_validity_days * day;
          status =
              if same_state r.state active && not (str_eq r.status status_pending_payment)
              then r.status
              else "active";
        })
  unfolding renew
  renewed_row c now s r h row read f = elim (Option-cases (build_invoice d v c)) [
    | inl e ↦ ground (arith, e, h)
    | inr (inv, e) ↦ elim (Posted-cases d v (charge_of d v c inv s.books).1) [
      | inr (x, g) ↦ ground (arith, renew-refused d v c now s inv x e g, h)
      | inl (t, g) ↦
          let s' = record s { books = (charge_of d v c inv s.books).0 } in
          elim (start_cycle-cases d v c inv now s') [
            | inl (k, x) ↦ ground (arith, renew-posted d v c now s inv t e g, k, h)
            | inr (w, x, k) ↦
                let paid = record s' { world = w } in
                let extended = extend_cycle-row c (new_expiry c now) s.world w r row x in
                let kept =
                  ap (λ u. u.row c.subscriber_id) (persist_invoice-world inv paid) ∙ extended in
                let restored =
                  restore-row c (new_expiry c now) (persist_invoice d v inv paid) _ kept read.0 f in
                ap (λ y. y.0.world.row c.subscriber_id) (renew-posted d v c now s inv t e g ∙ k)
                ∙ restored
                ∙ ground (arith, read.1, new_expiry-max c now)
          ]
    ]
  ]

  -- What the books of a renewal are.
  renew-books :
      (c : RenewalCandidate d.Amount) (now : Time) (s : State d.Amount)
      → ((renew d v c now s).0.books ≡ s.books)
        ⊎ ((inv : Invoice d.Amount) × (build_invoice d v c ≡ some inv)
            × ((renew d v c now s).0.books ≡ (charge_of d v c inv s.books).0))
  renew-books c now s = elim (Option-cases (build_invoice d v c)) [
    | inl e ↦ inl (ap (λ y. y.0.books) (renew-unpriced d v c now s e))
    | inr (inv, e) ↦ elim (Posted-cases d v (charge_of d v c inv s.books).1) [
      | inr (x, f) ↦ inl (ap (λ y. y.0.books) (renew-refused d v c now s inv x e f))
      | inl (t, f) ↦ inr (
        inv,
        e,
        ap (λ y. y.0.books) (renew-posted d v c now s inv t e f)
            ∙ start_cycle-books d v c inv now
                (record s { books = (charge_of d v c inv s.books).0 }),
      )
    ]
  ]

  revenue_ne_wallet : account_revenue_clearing ≢ account_subscriber_wallet
  revenue_ne_wallet q = cc

  -- The price is of two decimals, as the column of prices keeps it; then so are the invoice's total and
  -- its taxes.
  build_invoice-IsCents :
      (c : RenewalCandidate d.Amount) (inv : Invoice d.Amount)
      → IsCents d c.plan_price
      → build_invoice d v c ≡ some inv
      → IsCents d inv.total_amount
        × IsCents d (d.add (d.add inv.cgst_amount inv.sgst_amount) inv.igst_amount)
  unfolding build_invoice
  build_invoice-IsCents c inv h e = elim (Option-cases v.gst_rate) [
    | inl n ↦ ground (arith, n, e)
    | inr (rate, n) ↦
        let priced = calculate_gst_invoice d c.plan_price c.registered_state rate in
        let built : build_invoice d v c
            ≡ some (record priced {
              subscriber_id = c.subscriber_id;
              gb_included = c.plan_volume_gb;
              gb_used = d.zero_amount;
            }) =
          rw (build_invoice, n) refl in
        let inv_is = some_injective (sym built ∙ e) in
        let (total, tax) = calculate_gst_invoice-IsCents d c.plan_price c.registered_state rate h in
        (
          subst (λ i. IsCents d i.total_amount) inv_is total,
          subst (λ i. IsCents d (d.add (d.add i.cgst_amount i.sgst_amount) i.igst_amount)) inv_is
              tax,
        )
  ]

  abbrev pub HavePrices : List (RenewalCandidate d.Amount) → Type 0
  HavePrices [] = Unit
  HavePrices (c ∷ cs) = IsCents d c.plan_price × HavePrices cs

  renew-IsReconciled :
      (c : RenewalCandidate d.Amount) (now : Time) (s : State d.Amount)
      → IsCents d c.plan_price
      → IsReconciled d s.books
      → IsReconciled d (renew d v c now s).0.books
  renew-IsReconciled c now s x h = elim (renew-books c now s) [
    | inl e ↦ rw e h
    | inr (inv, b, e) ↦
        let (total, tax) = build_invoice-IsCents c inv x b in
        rw e (
          post-IsReconciled d v.chart v.refuses v.lookup_fails (renewal_request d v c inv) s.books
            revenue_ne_wallet total tax h)
  ]

  -- A pass over any candidates keeps the books: every balance is what the wallet ledger says and not
  -- negative, and every journal entry has equal debits and credits. The plans' prices have two decimals.
  pub scan-IsReconciled :
      (now : Time) (cs : List (RenewalCandidate d.Amount)) (s : State d.Amount)
      → HavePrices cs
      → IsReconciled d s.books
      → IsReconciled d (scan d v now cs s).books
  unfolding scan
  scan-IsReconciled now [] s x h = h
  scan-IsReconciled now (c ∷ cs) s x h =
      scan-IsReconciled now cs (renew d v c now s).0 x.1 (renew-IsReconciled c now s x.0 h)

  renew-stuck :
      (c : RenewalCandidate d.Amount) (now : Time) (s : State d.Amount)
      → (renew d v c now s).1 ≡ expiry_failed
      → (renew d v c now s).0 ≡ record s { books = (renew d v c now s).0.books }
  unfolding renew
  renew-stuck c now s h = elim (Option-cases (build_invoice d v c)) [
    | inl e ↦ ground (arith, e, h)
    | inr (inv, e) ↦ elim (Posted-cases d v (charge_of d v c inv s.books).1) [
      | inr (x, f) ↦ ground (arith, renew-refused d v c now s inv x e f, h)
      | inl (t, f) ↦
          let s' = record s { books = (charge_of d v c inv s.books).0 } in
          let r = renew-posted d v c now s inv t e f in
          elim (start_cycle-cases d v c inv now s') [
            | inr (w, x, k) ↦ ground (arith, r, k, h)
            | inl (k, x) ↦
                ap (λ y. y.0) (r ∙ k) ∙ ap (λ y. record s { books = y.0.books }) (sym (r ∙ k))
          ]
    ]
  ]

  -- A renewal that fails to move the expiry has charged the subscriber and opened no cycle: the row,
  -- the invoices and the notices are as they were. The same candidate renewed again on what it left,
  -- at any time, is charged the same invoice again, if that renewal succeeds or fails to move the
  -- expiry.
  pub charged_without_cycle :
      (c : RenewalCandidate d.Amount) (now : Time) (s : State d.Amount)
      → (renew d v c now s).1 ≡ expiry_failed
      → (let s' = (renew d v c now s).0 in
          (s' ≡ record s { books = s'.books })
          × ((inv : Invoice d.Amount) × (build_invoice d v c ≡ some inv)
              × Charges d v c inv s.books s'.books
              × ((later : Time)
                  → ((renew d v c later s').1 ≡ renewed)
                    ⊎ ((renew d v c later s').1 ≡ expiry_failed)
                  → Charges d v c inv s'.books (renew d v c later s').0.books)))
  charged_without_cycle c now s h =
      let s' = (renew d v c now s).0 in
      let (inv, built, charged) = renew-Charges d v c now s (inr h) in
      (
        renew-stuck c now s h,
        (
          inv,
          built,
          charged,
          λ later again.
              let (inv', built', charged') = renew-Charges d v c later s' again in
              subst (λ i. Charges d v c i s'.books (renew d v c later s').0.books)
                (some_injective (sym built' ∙ built)) charged',
        ),
      )
