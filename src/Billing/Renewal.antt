-- ===== src/Billing/Renewal.antt =====
-- internal/billing/recurring_billing_scanner.go: renewal from the wallet, with the statements of
-- internal/db/billing.go that move the expiry. The rows and the dunning notices are those of
-- Billing/Dunning, the balances and ledgers those of Billing/Wallet. `AddDate` adds whole days.
pub mod Charged
pub mod Cycle
use Prim.Native.String.{◌++◌}
use isp.Common.{
  ℕ, suc, ◌+◌, ◌*◌, ◌/◌, String, str_eq, Bool, true, false, not, ◌&&◌, ◌||◌, Option, none, some,
  List, [], ◌∷◌, ltb, ◌==◌, if◌then◌else◌,
}
use isp.Common.Clock.{Time, day, second}
use isp.Common.Bytes.{Bytes, length}
use isp.Common.Decimal.{Decimal}
use isp.Billing.Gst.{GstRate, Invoice, calculate_gst_invoice}
use isp.Billing.Wallet.{
  PostRequest, Books, RechargePosting, WalletError, insufficient_balance, posted, refused,
  account_revenue_clearing,
}
use isp.Billing.Wallet.Service.{post}
use isp.Billing.Dunning.{
  DunningState, active, soft_suspended, hard_suspended, same_state, Row, World, is_ok, put_row,
  transition_dunning,
}

pub record RenewalCandidate (A : Type 0) : Type 0 where
  pub subscriber_id : ℕ
  pub username : String
  pub franchise_id : Option ℕ
  pub registered_state : Bytes
  pub plan_name : String
  pub plan_price : A
  pub plan_validity_days : ℕ
  pub plan_volume_gb : ℕ
  pub plan_expiry : Time
  pub dunning_state : DunningState
  pub status : String

abbrev pub status_pending_payment : String
status_pending_payment = "pending_payment"

abbrev pub status_active : String
status_active = "active"

-- A restoration notice, by the fields of its task id and the plan that it names.
pub record Restored : Type 0 where
  pub subscriber_id : ℕ
  pub expiry_unix : ℕ
  pub username : String
  pub plan_name : String

pub record State (A : Type 0) : Type 0 where
  pub books : Books A
  pub world : World
  pub invoices : List (Invoice A)
  -- the ids of the invoices that partners were told of
  pub events : List ℕ
  pub restored : List Restored

pub data Renewal : Type 0 where
  renewed insufficient price_failed expiry_failed : Renewal
  debit_failed : WalletError → Renewal

-- `errors.Is(err, ErrInsufficientBalance)`
abbrev pub is_insufficient : WalletError → Bool
is_insufficient insufficient_balance = true
is_insufficient _ = false

-- What the scanner uses: the tax rate in force, if the database gives one, which statements the
-- database refuses, and whether partners' events and the task queue are attached.
pub record Services (A : Type 0) : Type 0 where
  pub gst_rate : Option (GstRate A)
  pub lookup_fails : String → Bool
  pub chart : String → Bool
  pub refuses : RechargePosting A → Bool
  pub expiry_fails : ℕ → Time → Bool
  pub invoice_fails : Invoice A → Bool
  pub set_fails : ℕ → DunningState → Bool
  pub has_events : Bool
  pub has_tasks : Bool
  pub task_fails : Restored → Bool

unfoldable pub was_cut_off : DunningState → Bool
was_cut_off state = same_state state soft_suspended || same_state state hard_suspended

abbrev pub has_restored : Restored → List Restored → Bool
has_restored r [] = false
has_restored r (q ∷ qs) =
    (q.subscriber_id == r.subscriber_id && q.expiry_unix == r.expiry_unix) || has_restored r qs

-- The later of now and the old expiry, and the plan's days.
unfoldable pub new_expiry : {A : Type 0} → RenewalCandidate A → Time → Time
new_expiry c now =
    (if ltb now c.plan_expiry then c.plan_expiry else now) + c.plan_validity_days * day

module _ (d : Decimal) (v : Services d.Amount) where
  unfoldable pub build_invoice : RenewalCandidate d.Amount → Option (Invoice d.Amount)
  build_invoice c = elim v.gst_rate [
    | none ↦ none
    | some rate ↦ some (record (calculate_gst_invoice d c.plan_price c.registered_state rate) {
      subscriber_id = c.subscriber_id;
      gb_included = c.plan_volume_gb;
      gb_used = d.zero_amount;
    })
  ]

  abbrev pub renewal_request : RenewalCandidate d.Amount → Invoice d.Amount → PostRequest d.Amount
  renewal_request c inv = record {
    subscriber_id = c.subscriber_id;
    franchise_id = c.franchise_id;
    amount = inv.total_amount;
    direction = "debit";
    counter_account = account_revenue_clearing;
    transaction_token = "";
    adjusted_by = "";
    description = "auto-renewal: " ++ c.plan_name;
    tax_amount = d.add (d.add inv.cgst_amount inv.sgst_amount) inv.igst_amount;
  }

  -- `SetPlanExpiry`, and `ActivateSubscriber` for a row that still waits for its first payment.
  unfoldable pub set_plan_expiry : ℕ → Time → World → Option World
  set_plan_expiry id expiry w = if v.expiry_fails id expiry then none else elim (w.row id) [
    | none ↦ some w
    | some r ↦ some (put_row id (record r { plan_expiry = expiry }) w)
  ]

  unfoldable pub activate_subscriber : ℕ → Time → World → Option World
  activate_subscriber id expiry w = if v.expiry_fails id expiry then none else elim (w.row id) [
    | none ↦ none
    | some r ↦
        if str_eq r.status status_pending_payment
        then some (put_row id (record r { plan_expiry = expiry; status = status_active }) w)
        else none
  ]

  unfoldable pub extend_cycle : RenewalCandidate d.Amount → Time → World → Option World
  extend_cycle c expiry w =
      if str_eq c.status status_pending_payment
      then activate_subscriber c.subscriber_id expiry w
      else set_plan_expiry c.subscriber_id expiry w

  unfoldable pub persist_invoice : Invoice d.Amount → State d.Amount → State d.Amount
  persist_invoice inv s = if v.invoice_fails inv then s else record s {
    invoices = inv ∷ s.invoices;
    events = if v.has_events then suc (length s.invoices) ∷ s.events else s.events;
  }

  unfoldable pub enqueue_restoration_notice :
      RenewalCandidate d.Amount → Time → State d.Amount → State d.Amount
  enqueue_restoration_notice c expiry s =
      let notice : Restored = record {
        subscriber_id = c.subscriber_id;
        expiry_unix = expiry / second;
        username = c.username;
        plan_name = c.plan_name;
      } in
      if v.has_tasks && (not (v.task_fails notice)) && not (has_restored notice s.restored)
      then record s { restored = notice ∷ s.restored }
      else s

  unfoldable pub restore : RenewalCandidate d.Amount → Time → State d.Amount → State d.Amount
  restore c expiry s =
      let r = transition_dunning v.set_fails c.subscriber_id active s.world in
      let s' = record s { world = r.0 } in
      if same_state c.dunning_state active
      then s
      else if is_ok r.1 && was_cut_off c.dunning_state
      then enqueue_restoration_notice c expiry s'
      else s'

  -- The steps after the debit.
  unfoldable pub start_cycle :
      RenewalCandidate d.Amount
      → Invoice d.Amount
      → Time
      → State d.Amount
      → State d.Amount × Renewal
  start_cycle c inv now s =
      let expiry = new_expiry c now in
      elim (extend_cycle c expiry s.world) [
        | none ↦ (s, expiry_failed)
        | some world ↦
            (restore c expiry (persist_invoice inv (record s { world = world })), renewed)
      ]

  unfoldable pub renew :
      RenewalCandidate d.Amount → Time → State d.Amount → State d.Amount × Renewal
  renew c now s = elim (build_invoice c) [
    | none ↦ (s, price_failed)
    | some inv ↦
        let r = post d v.lookup_fails v.chart v.refuses (renewal_request c inv) s.books in
        let s' = record s { books = r.0 } in
        elim r.1 [
          | posted t ↦ start_cycle c inv now s'
          | refused e ↦ (s', if is_insufficient e then insufficient else debit_failed e)
        ]
  ]

  -- One pass over the candidates: a failure is logged, and the next candidate follows.
  unfoldable pub scan : Time → List (RenewalCandidate d.Amount) → State d.Amount → State d.Amount
  scan now [] s = s
  scan now (c ∷ cs) s = scan now cs (renew c now s).0
