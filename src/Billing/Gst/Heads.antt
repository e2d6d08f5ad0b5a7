-- ===== src/Billing/Gst/Heads.antt =====
-- gst.go: which taxes an invoice carries, and that they make up its total.
use mathlib.Core.List.{Memᴰ}
use isp.Common.{◌≡◌, ◌⊎◌, refl, inl, inr, none, if◌then◌else◌, arith, Bool-cases}
use isp.Common.Bytes.{Bytes, bytes_eq}
use isp.Common.Decimal.{Decimal}
use isp.Billing.State.{State, gst_states, normalise_state}
use isp.Billing.State.Spelling.{Spells, normalise_state_spelling}
use isp.Billing.Gst.{GstRate, same_state, tax_at, invoice_of, calculate_gst_invoice_from}

-- A text that names a registered state.
abbrev pub Names : State → Bytes → Type 0
Names s input = Spells input s.code ⊎ Spells input s.gst_code ⊎ Spells input s.name

same_state-Names :
    (s h : State) (sub home : Bytes)
    → Memᴰ s gst_states
    → Memᴰ h gst_states
    → Names s sub
    → Names h home
    → same_state sub home ≡ bytes_eq s.code h.code
unfolding same_state
same_state-Names s h sub home m n k l =
    rw (same_state, normalise_state_spelling s sub m k, normalise_state_spelling h home n l) refl

module _ (d : Decimal) where
  total_regrouped :
      (b c s i : d.Amount) → d.add (d.add (d.add b c) s) i ≡ d.add b (d.add (d.add c s) i)
  total_regrouped b c s i = rw (d.add_assoc b c s) (d.add_assoc b (d.add c s) i)

  -- However the two states are written, a supply inside one state carries CGST and SGST and no IGST,
  -- a supply between two states carries IGST alone, and the total is the base amount and its taxes.
  pub gst_heads :
      (s h : State) (sub home : Bytes) (base : d.Amount) (rate : GstRate d.Amount)
      → Memᴰ s gst_states
      → Memᴰ h gst_states
      → Names s sub
      → Names h home
      → let inv = calculate_gst_invoice_from d base sub home rate in
        (inv ≡ (
          if bytes_eq s.code h.code
          then invoice_of d base
              (tax_at d base rate.cgst_rate)
              (tax_at d base rate.sgst_rate)
              d.zero_amount
              rate
          else invoice_of d base d.zero_amount d.zero_amount (tax_at d base rate.igst_rate) rate))
        × (inv.total_amount
            ≡ d.add inv.base_amount (d.add (d.add inv.cgst_amount inv.sgst_amount) inv.igst_amount))
  unfolding calculate_gst_invoice_from
  gst_heads s h sub home base rate m n k l = (
    rw (calculate_gst_invoice_from, same_state-Names s h sub home m n k l) refl,
    elim (Bool-cases (same_state sub home)) [
      | inl e ↦ rw (calculate_gst_invoice_from, e) (total_regrouped base _ _ _)
      | inr e ↦ rw (calculate_gst_invoice_from, e) (total_regrouped base _ _ _)
    ],
  )

  -- A state that is not recognised, the subscriber's or the supplier's, makes the supply interstate.
  pub unknown_state_interstate :
      (sub home : Bytes) (base : d.Amount) (rate : GstRate d.Amount)
      → (normalise_state sub ≡ none) ⊎ (normalise_state home ≡ none)
      → calculate_gst_invoice_from d base sub home rate
        ≡ invoice_of d base d.zero_amount d.zero_amount (tax_at d base rate.igst_rate) rate
  unfolding calculate_gst_invoice_from same_state
  unknown_state_interstate sub home base rate h = ground (arith, h)
