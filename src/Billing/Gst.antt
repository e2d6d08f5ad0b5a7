-- ===== src/Billing/Gst.antt =====
-- internal/billing/gst.go: the tax of an invoice, by the states of subscriber and supplier.
pub mod Heads
pub mod Cents
use isp.Common.{ℕ, Bool, ◌&&◌, Option, none, some, if◌then◌else◌, true, false}
use isp.Common.Bytes.{Bytes, text, bytes_eq}
use isp.Common.Decimal.{Decimal}
use isp.Billing.State.{normalise_state}

pub record GstRate (A : Type 0) : Type 0 where
  pub id : ℕ
  pub cgst_rate : A
  pub sgst_rate : A
  pub igst_rate : A

pub record Invoice (A : Type 0) : Type 0 where
  pub subscriber_id : ℕ
  pub base_amount : A
  pub cgst_amount : A
  pub sgst_amount : A
  pub igst_amount : A
  pub total_amount : A
  pub gst_rate_id : ℕ
  pub gb_included : ℕ
  pub gb_used : A

abbrev pub default_home_state : Bytes
default_home_state = text "TN"

-- Both states are known, and are one.
unfoldable pub same_state : Bytes → Bytes → Bool
same_state subscriber_state home_state = elim (normalise_state subscriber_state) [
  | none ↦ false
  | some sub_code ↦ elim (normalise_state home_state) [
    | none ↦ false
    | some home_code ↦ bytes_eq sub_code home_code
  ]
]

module _ (d : Decimal) where
  -- `baseAmount.Mul(rate).Div(decimal.NewFromInt(100)).Round(2)`
  abbrev pub tax_at : d.Amount → d.Amount → d.Amount
  tax_at base_amount rate = d.round2 (d.div (d.mul base_amount rate) d.hundred)

  abbrev pub invoice_of :
      d.Amount → d.Amount → d.Amount → d.Amount → GstRate d.Amount → Invoice d.Amount
  invoice_of base_amount cgst sgst igst rate = record {
    subscriber_id = 0;
    base_amount = base_amount;
    cgst_amount = cgst;
    sgst_amount = sgst;
    igst_amount = igst;
    total_amount = d.add (d.add (d.add base_amount cgst) sgst) igst;
    gst_rate_id = rate.id;
    gb_included = 0;
    gb_used = d.zero_amount;
  }

  unfoldable pub calculate_gst_invoice_from :
      d.Amount → Bytes → Bytes → GstRate d.Amount → Invoice d.Amount
  calculate_gst_invoice_from base_amount subscriber_state home_state rate =
      if same_state subscriber_state home_state
      then invoice_of base_amount (tax_at base_amount rate.cgst_rate)
          (tax_at base_amount rate.sgst_rate) d.zero_amount rate
      else invoice_of base_amount d.zero_amount d.zero_amount (tax_at base_amount rate.igst_rate)
          rate

  unfoldable pub calculate_gst_invoice : d.Amount → Bytes → GstRate d.Amount → Invoice d.Amount
  calculate_gst_invoice base_amount subscriber_state rate =
      calculate_gst_invoice_from base_amount subscriber_state default_home_state rate
