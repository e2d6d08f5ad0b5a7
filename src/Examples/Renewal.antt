-- ===== src/Examples/Renewal.antt =====
-- Subscriber 4 is renewed out of the wallet of Examples/Billing, at 50 rupees and tax.
use Prim.Native.Nat.{max}
use isp.Common.{
  ℕ, ◌≡◌, ◌≢◌, ◌⊎◌, ◌+◌, ◌-◌, ◌*◌, ◌==◌, refl, inl, inr, String, str_eq, not, ◌&&◌, Bool, true,
  false, Option, none, some, List, [], ◌∷◌, arith, if◌then◌else◌,
}
use isp.Common.Clock.{Time, day}
use isp.Common.Bytes.{text}
use isp.Common.Int.{ℤ, pos, ◌+ℤ◌, ◌-ℤ◌, ◌*ℤ◌}
use isp.Billing.Dunning.{active, soft_suspended, same_state, Row}
use isp.Billing.Gst.{Invoice}
use isp.Billing.Wallet.Reconciled.{IsReconciled}
use isp.Billing.Renewal.{
  RenewalCandidate, State, Services, renewed, insufficient, expiry_failed, build_invoice,
  new_expiry, renew, scan,
}
use isp.Billing.Renewal.Charged.{Charges, renew-Charges}
use isp.Billing.Renewal.Cycle.{renewed_row, scan-IsReconciled, charged_without_cycle}
use isp.Examples.Billing.{
  rupees, no_failure, whole_chart, no_refusal, books, books-IsReconciled, rate,
}

abbrev now : Time
now = 800000 * day

abbrev row : Row
row = record { state = soft_suspended; plan_expiry = now - 4 * day; status = "soft_suspended" }

abbrev state : State ℤ
state = record {
  books = books;
  world = record { row = λ id. if id == 4 then some row else none; notices = [] };
  invoices = [];
  events = [];
  restored = [];
}

abbrev services : Services ℤ
services = record {
  gst_rate = some rate;
  lookup_fails = no_failure;
  chart = whole_chart;
  refuses = no_refusal;
  expiry_fails = λ id t. false;
  invoice_fails = λ inv. false;
  set_fails = λ id s. false;
  has_events = true;
  has_tasks = true;
  task_fails = λ notice. false;
}

-- The same, with a database that cannot move the expiry.
abbrev broken_services : Services ℤ
broken_services = record services { expiry_fails = λ id t. true }

abbrev candidate : ℕ → RenewalCandidate ℤ
candidate price = record {
  subscriber_id = 4;
  username = "alice";
  franchise_id = none;
  registered_state = text "Tamil Nadu";
  plan_name = "basic";
  plan_price = pos price;
  plan_validity_days = 30;
  plan_volume_gb = 100;
  plan_expiry = now - 4 * day;
  dunning_state = soft_suspended;
  status = "soft_suspended";
}

candidate_is_renewed : (renew rupees services (candidate 50) now state).1 ≡ renewed
unfolding renew build_invoice isp.Billing.Gst.calculate_gst_invoice
    isp.Billing.Gst.calculate_gst_invoice_from isp.Billing.Gst.same_state
    isp.Billing.State.normalise_state isp.Billing.State.normalise_key isp.Common.Bytes.trim_space
    isp.Billing.State.resolve isp.Billing.State.by_code isp.Billing.State.by_gst_code
    isp.Billing.State.find_legacy isp.Billing.State.by_name isp.Billing.Wallet.Service.post
    isp.Billing.Wallet.Service.plan_post isp.Billing.Wallet.Service.carry_out
    isp.Billing.Wallet.Store.record_recharge isp.Billing.Wallet.Store.post_wallet_gl_entry
    isp.Billing.Wallet.gl_account_code isp.Billing.Wallet.Store.split_tax_leg
    isp.Billing.Wallet.Store.split_legs ◌+ℤ◌ ◌-ℤ◌ ◌*ℤ◌ isp.Billing.Renewal.start_cycle new_expiry
    isp.Billing.Renewal.extend_cycle isp.Billing.Renewal.set_plan_expiry
candidate_is_renewed = refl

candidate_is_refused : (renew rupees services (candidate 100) now state).1 ≡ insufficient
unfolding renew build_invoice isp.Billing.Gst.calculate_gst_invoice
    isp.Billing.Gst.calculate_gst_invoice_from isp.Billing.Gst.same_state
    isp.Billing.State.normalise_state isp.Billing.State.normalise_key isp.Common.Bytes.trim_space
    isp.Billing.State.resolve isp.Billing.State.by_code isp.Billing.State.by_gst_code
    isp.Billing.State.find_legacy isp.Billing.State.by_name isp.Billing.Wallet.Service.post
    isp.Billing.Wallet.Service.plan_post isp.Billing.Wallet.Service.carry_out
    isp.Billing.Wallet.Store.record_recharge isp.Billing.Wallet.Store.post_wallet_gl_entry
    isp.Billing.Wallet.gl_account_code isp.Billing.Wallet.Store.split_tax_leg
    isp.Billing.Wallet.Store.split_legs ◌+ℤ◌ ◌-ℤ◌ ◌*ℤ◌ isp.Billing.Renewal.start_cycle new_expiry
    isp.Billing.Renewal.extend_cycle isp.Billing.Renewal.set_plan_expiry
candidate_is_refused = refl

candidate_is_stuck : (renew rupees broken_services (candidate 50) now state).1 ≡ expiry_failed
unfolding renew build_invoice isp.Billing.Gst.calculate_gst_invoice
    isp.Billing.Gst.calculate_gst_invoice_from isp.Billing.Gst.same_state
    isp.Billing.State.normalise_state isp.Billing.State.normalise_key isp.Common.Bytes.trim_space
    isp.Billing.State.resolve isp.Billing.State.by_code isp.Billing.State.by_gst_code
    isp.Billing.State.find_legacy isp.Billing.State.by_name isp.Billing.Wallet.Service.post
    isp.Billing.Wallet.Service.plan_post isp.Billing.Wallet.Service.carry_out
    isp.Billing.Wallet.Store.record_recharge isp.Billing.Wallet.Store.post_wallet_gl_entry
    isp.Billing.Wallet.gl_account_code isp.Billing.Wallet.Store.split_tax_leg
    isp.Billing.Wallet.Store.split_legs ◌+ℤ◌ ◌-ℤ◌ ◌*ℤ◌ isp.Billing.Renewal.start_cycle new_expiry
    isp.Billing.Renewal.extend_cycle isp.Billing.Renewal.set_plan_expiry
candidate_is_stuck = refl

renew-Charges_example :
    (inv : Invoice ℤ) × (build_invoice rupees services (candidate 50) ≡ some inv)
    × Charges rupees services
        (candidate 50)
        inv
        books
        (renew rupees services (candidate 50) now state).0.books
renew-Charges_example =
    renew-Charges rupees services (candidate 50) now state (inl candidate_is_renewed)

renewed_row_example :
    (renew rupees services (candidate 50) now state).0.world.row 4
    ≡ some (record {
      state = active;
      plan_expiry = max now (now - 4 * day) + 30 * day;
      status =
          if same_state soft_suspended active && not (str_eq "soft_suspended" "pending_payment")
          then "soft_suspended"
          else "active";
    })
renewed_row_example =
    renewed_row rupees services (candidate 50) now state row candidate_is_renewed refl (refl, refl)
      refl

scan-IsReconciled_example :
    IsReconciled rupees (scan rupees services now (candidate 100 ∷ candidate 50 ∷ []) state).books
scan-IsReconciled_example =
    scan-IsReconciled rupees services now (candidate 100 ∷ candidate 50 ∷ []) state
      (refl, (refl, tt)) books-IsReconciled

charged_without_cycle_example :
    (let s' = (renew rupees broken_services (candidate 50) now state).0 in
      (s' ≡ record state { books = s'.books })
      × ((inv : Invoice ℤ) × (build_invoice rupees broken_services (candidate 50) ≡ some inv)
          × Charges rupees broken_services (candidate 50) inv books s'.books
          × ((later : Time)
              → ((renew rupees broken_services (candidate 50) later s').1 ≡ renewed)
                ⊎ ((renew rupees broken_services (candidate 50) later s').1 ≡ expiry_failed)
              → Charges rupees broken_services
                  (candidate 50)
                  inv
                  s'.books
                  (renew rupees broken_services (candidate 50) later s').0.books)))
charged_without_cycle_example =
    charged_without_cycle rupees broken_services (candidate 50) now state candidate_is_stuck
