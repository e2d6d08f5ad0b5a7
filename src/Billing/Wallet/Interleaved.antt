-- ===== src/Billing/Wallet/Interleaved.antt =====
-- wallet.go and internal/db/billing.go: `Post` reads the balance and writes the new one in separate
-- statements, so two postings can both read before either writes.
use isp.Common.{◌≡◌, ◌≢◌, refl, String, eq_iff, Bool, some, inl, inr, arith}
use isp.Common.Decimal.{Decimal, stored}
use isp.Billing.Wallet.{
  RechargePosting, PostRequest, Transaction, JournalEntry, Books, posted, account_subscriber_wallet,
}
use isp.Billing.Wallet.Store.{record_recharge-cases, write_posting}
use isp.Billing.Wallet.Service.{write, plan_post, carry_out}
use isp.Billing.Wallet.Debited.{plan_post-debit}
use isp.Billing.Wallet.Reconciled.{ledger_balance, IsReconciled}

module _ (d : Decimal) (lookup_fails : String → Bool) (chart : String → Bool)
    (refuses : RechargePosting d.Amount → Bool) where
  -- One posting reads, another reads, the first writes, the second writes.
  unfoldable pub interleave :
      PostRequest d.Amount → PostRequest d.Amount → Books d.Amount → Books d.Amount
  interleave first second w =
      let plan = plan_post d lookup_fails first w in
      let plan' = plan_post d lookup_fails second w in
      let w' = (carry_out d lookup_fails chart refuses plan w).0 in
      (carry_out d lookup_fails chart refuses plan' w').0

  carry_out-written :
      (p : RechargePosting d.Amount) (w : Books d.Amount) (t : Transaction d.Amount)
      → (carry_out d lookup_fails chart refuses (write p) w).1 ≡ posted t
      → (e : JournalEntry d.Amount) × ((carry_out d lookup_fails chart refuses (write p) w).0
          ≡ write_posting d p e w)
  unfolding carry_out
  carry_out-written p w t h = elim (record_recharge-cases d chart refuses p w) [
    | inl e ↦ ground (arith, e)
    | inr (entry, e, fresh, n, g) ↦ (entry, rw (carry_out, e) refl)
  ]

  -- Two debits of one subscriber that both read the balance before either writes, and are both
  -- written, leave the balance less the second amount alone, while the wallet ledger takes both off, each to two decimals:
  -- the constraint that a balance is not negative does not see the race. The books were reconciled and
  -- the counter accounts are not the wallet.
  pub interleaved_debits :
      (first second : PostRequest d.Amount) (w : Books d.Amount) (b : d.Amount)
      (p p' : RechargePosting d.Amount) (t t' : Transaction d.Amount)
      → IsReconciled d w
      → w.wallet_balance first.subscriber_id ≡ some b
      → second.subscriber_id ≡ first.subscriber_id
      → (first.direction ≡ "debit") × (second.direction ≡ "debit")
      → (first.counter_account ≢ account_subscriber_wallet)
        × (second.counter_account ≢ account_subscriber_wallet)
      → (plan_post d lookup_fails first w ≡ write p)
        × (plan_post d lookup_fails second w ≡ write p')
      → (carry_out d lookup_fails chart refuses (write p) w).1 ≡ posted t
      → (carry_out d lookup_fails chart refuses
          (write p')
          (carry_out d lookup_fails chart refuses (write p) w).0).1
        ≡ posted t'
      → ((interleave first second w).wallet_balance first.subscriber_id
          ≡ some (stored d (d.sub b second.amount)))
        × (ledger_balance d first.subscriber_id (interleave first second w).wallet_ledgers
            ≡ d.sub (d.sub b (stored d first.amount)) (stored d second.amount))
  unfolding interleave
  interleaved_debits first second w b p p' t t' r h same dirs counters plans k k' =
      let (entry, once) = carry_out-written p w t k in
      let (entry', twice) =
        carry_out-written p' (carry_out d lookup_fails chart refuses (write p) w).0 t' k' in
      let p_is = plan_post-debit d lookup_fails chart refuses first w b p h dirs.0 plans.0 in
      let p'_is =
        plan_post-debit d lookup_fails chart refuses second w b p' (rw same h) dirs.1 plans.1 in
      rw (interleave, plans.0, plans.1, twice, once, p_is, p'_is, same, dirs.0, dirs.1)
        (ground (
          arith,
          eq_iff first.counter_account account_subscriber_wallet,
          eq_iff second.counter_account account_subscriber_wallet,
          (r.0 first.subscriber_id b h).0,
          counters.0,
          counters.1,
        ))
