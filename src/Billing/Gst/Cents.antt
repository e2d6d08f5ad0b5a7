-- ===== src/Billing/Gst/Cents.antt =====
-- gst.go: an invoice of a price with two decimals has two decimals throughout.
use isp.Common.{inl, inr, Bool-cases}
use isp.Common.Bytes.{Bytes}
use isp.Common.Decimal.{Decimal, IsCents}
use isp.Billing.Gst.{
  GstRate, invoice_of, tax_at, same_state, default_home_state, calculate_gst_invoice,
  calculate_gst_invoice_from,
}

module _ (d : Decimal) where
  taxes-IsCents :
      (base cgst sgst igst : d.Amount) (rate : GstRate d.Amount)
      → IsCents d base
      → IsCents d cgst
      → IsCents d sgst
      → IsCents d igst
      → (let inv = invoice_of d base cgst sgst igst rate in
          IsCents d inv.total_amount
          × IsCents d (d.add (d.add inv.cgst_amount inv.sgst_amount) inv.igst_amount))
  taxes-IsCents base cgst sgst igst rate b x y z =
      let two = d.round2_add base cgst b x in
      let three = d.round2_add (d.add base cgst) sgst two y in
      (
        d.round2_add (d.add (d.add base cgst) sgst) igst three z,
        d.round2_add (d.add cgst sgst) igst (d.round2_add cgst sgst x y) z,
      )

  pub calculate_gst_invoice-IsCents :
      (base : d.Amount) (state : Bytes) (rate : GstRate d.Amount)
      → IsCents d base
      → (let inv = calculate_gst_invoice d base state rate in
          IsCents d inv.total_amount
          × IsCents d (d.add (d.add inv.cgst_amount inv.sgst_amount) inv.igst_amount))
  unfolding calculate_gst_invoice calculate_gst_invoice_from
  calculate_gst_invoice-IsCents base state rate b =
      let tax = λ (r : d.Amount). d.div (d.mul base r) d.hundred in
      elim (Bool-cases (same_state state default_home_state)) [
        | inl e ↦ rw e (
            taxes-IsCents base (tax_at d base rate.cgst_rate) (tax_at d base rate.sgst_rate)
              d.zero_amount rate b (d.round2_round2 (tax rate.cgst_rate))
              (d.round2_round2 (tax rate.sgst_rate)) d.round2_zero)
        | inr e ↦ rw e (
            taxes-IsCents base d.zero_amount d.zero_amount (tax_at d base rate.igst_rate) rate b
              d.round2_zero d.round2_zero (d.round2_round2 (tax rate.igst_rate)))
      ]
