-- ===== src/Billing/Wallet/Debited.antt =====
-- wallet.go and internal/db/billing.go: what a debit does to the tables.
use isp.Common.{
  ℕ, suc, ◌≡◌, ◌≢◌, refl, sym, ap, ◌∙◌, inl, inr, String, eq_iff, Bool, false, some, if◌then◌else◌,
  Option-cases, arith,
}
use isp.Common.Decimal.{Decimal, is_negative, is_zero_amount}
use isp.Billing.Wallet.{
  RechargePosting, PostRequest, Transaction, JournalEntry, Books, WalletError, posted, refused,
  gl_account_code, account_revenue_clearing,
}
use isp.Billing.Wallet.Store.{
  record_recharge-cases, write_posting, post_wallet_gl_entry, stored_lines,
}
use isp.Billing.Wallet.Service.{write, done, post_posting, plan_post, carry_out, post}
use isp.Billing.Wallet.Retried.{Plan-cases, post-done, post-write}
use isp.Billing.Wallet.Journal.{two_lines, taxed_lines, split_tax_leg-two_lines}

module _ (d : Decimal) (lookup_fails : String → Bool) (chart : String → Bool)
    (refuses : RechargePosting d.Amount → Bool) where
  pub post-refused :
      (req : PostRequest d.Amount) (w : Books d.Amount) (e : WalletError)
      → (post d lookup_fails chart refuses req w).1 ≡ refused e
      → (post d lookup_fails chart refuses req w).0 ≡ w
  unfolding carry_out
  post-refused req w e h = elim (Plan-cases (plan_post d lookup_fails req w)) [
    | inl (r, f) ↦ rw (post-done d lookup_fails chart refuses req w r f) refl
    | inr (p, f) ↦ elim (record_recharge-cases d chart refuses p w) [
      | inl g ↦ ground (arith, post-write d lookup_fails chart refuses req w p f, g)
      | inr (entry, g, fresh, n, k) ↦
          ground (arith, post-write d lookup_fails chart refuses req w p f, g, h)
    ]
  ]

  -- A debit without a token that is posted takes its amount from a balance that covers it.
  pub plan_post-debit :
      (req : PostRequest d.Amount) (w : Books d.Amount) (b : d.Amount)
      (p : RechargePosting d.Amount)
      → w.wallet_balance req.subscriber_id ≡ some b
      → req.direction ≡ "debit"
      → plan_post d lookup_fails req w ≡ write p
      → p ≡ post_posting d req (d.sub b req.amount)
  unfolding plan_post
  plan_post-debit req w b p h dir e = ground (
    arith,
    h,
    dir,
    e,
    eq_iff req.direction "debit",
    eq_iff req.direction "credit",
    eq_iff "debit" "credit",
  )

  plan_post-covered :
      (req : PostRequest d.Amount) (w : Books d.Amount) (b : d.Amount)
      (p : RechargePosting d.Amount)
      → w.wallet_balance req.subscriber_id ≡ some b
      → req.direction ≡ "debit"
      → plan_post d lookup_fails req w ≡ write p
      → is_negative d (d.sub b req.amount) ≡ false
  unfolding plan_post
  plan_post-covered req w b p h dir e = ground (
    arith,
    h,
    dir,
    e,
    eq_iff req.direction "debit",
    eq_iff req.direction "credit",
    eq_iff "debit" "credit",
  )

  plan_post-balance :
      (req : PostRequest d.Amount) (w : Books d.Amount) (p : RechargePosting d.Amount)
      → plan_post d lookup_fails req w ≡ write p
      → (b : d.Amount) × (w.wallet_balance req.subscriber_id ≡ some b)
  unfolding plan_post
  plan_post-balance req w p h = elim (Option-cases (w.wallet_balance req.subscriber_id)) [
    | inl e ↦ ground (arith, e)
    | inr (b, e) ↦ (b, e)
  ]

  no_answer :
      (req : PostRequest d.Amount) (w : Books d.Amount) (t : Transaction d.Amount)
      → req.transaction_token ≡ ""
      → plan_post d lookup_fails req w ≢ done (posted t)
  unfolding plan_post
  no_answer req w t k = ground (arith, k, eq_iff req.transaction_token "")

  pub post-debit :
      (req : PostRequest d.Amount) (w : Books d.Amount) (t : Transaction d.Amount)
      → req.direction ≡ "debit"
      → req.transaction_token ≡ ""
      → (post d lookup_fails chart refuses req w).1 ≡ posted t
      → (b : d.Amount) × (e : JournalEntry d.Amount) × (w.wallet_balance req.subscriber_id ≡ some b)
        × (is_negative d (d.sub b req.amount) ≡ false)
        × ((post d lookup_fails chart refuses req w).0
            ≡ write_posting d (post_posting d req (d.sub b req.amount)) e w)
        × (post_wallet_gl_entry d chart (post_posting d req (d.sub b req.amount)) (suc w.next_leg)
            ≡ some e)
  unfolding carry_out
  post-debit req w t dir k h = elim (Plan-cases (plan_post d lookup_fails req w)) [
    | inl (r, f) ↦
        ground (arith, post-done d lookup_fails chart refuses req w r f, no_answer req w t k, h, f)
    | inr (p, f) ↦ elim (record_recharge-cases d chart refuses p w) [
      | inl g ↦ ground (arith, post-write d lookup_fails chart refuses req w p f, g, h)
      | inr (entry, g, fresh, n, q) ↦
          let (b, balance) = plan_post-balance req w p f in
          let p_is = plan_post-debit req w b p balance dir f in
          (
            b,
            entry,
            balance,
            plan_post-covered req w b p balance dir f,
            ap (λ x. x.0) (post-write d lookup_fails chart refuses req w p f)
                ∙ ap (λ x. x.0) g
                ∙ ap (λ x. write_posting d x entry w) p_is,
            ap (λ x. post_wallet_gl_entry d chart x (suc w.next_leg)) (sym p_is) ∙ q,
          )
    ]
  ]

  abbrev pub charge : PostRequest d.Amount → PostRequest d.Amount
  charge req = record req { direction = "debit"; counter_account = account_revenue_clearing }

  -- The lines of the journal entry of a charge: what is left of the amount after tax to revenue, the
  -- tax to the tax account, the whole amount from the wallet, each to two decimals; without tax, two
  -- lines.
  pub charge-lines :
      (req : PostRequest d.Amount) (b : d.Amount) (n : ℕ) (e : JournalEntry d.Amount)
      → post_wallet_gl_entry d chart (post_posting d (charge req) b) n ≡ some e
      → e.lines
        ≡ stored_lines d (
            if is_zero_amount d req.tax_amount
            then two_lines d "4000" "1200" "credit" "debit" req.amount req.amount
            else taxed_lines d "4000" "1200" "credit" "debit" req.amount req.amount req.tax_amount)
  unfolding post_wallet_gl_entry gl_account_code
  charge-lines req b n e h =
      let split =
        split_tax_leg-two_lines d req.amount req.amount req.tax_amount "4000" "1200" "credit"
          "debit" refl in
      ground (arith, split, h)
