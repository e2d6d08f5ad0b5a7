-- ===== src/Billing/Wallet/Reconciled.antt =====
-- wallet.go and internal/db/billing.go: the subscribers' balances, the wallet ledger and the general
-- ledger agree, whatever is posted.
use mathlib.Core.Path.{subst}
use isp.Common.{
  ℕ, suc, ◌≡◌, ◌≢◌, refl, sym, inl, inr, String, str_eq, eq_iff, Bool, false, ◌&&◌, none, some,
  List, [], ◌∷◌, ◌==◌, if◌then◌else◌, Option-cases, arith,
}
use isp.Common.Decimal.{Decimal, is_negative, stored, IsCents}
use isp.Billing.Wallet.{
  RechargePosting, RechargeRequest, PostRequest, WalletEntry, Books, JournalEntry,
  account_subscriber_wallet, account_gateway_clearing,
}
use isp.Billing.Wallet.Store.{record_recharge, record_recharge-cases, write_posting, stored_leg}
use isp.Billing.Wallet.Journal.{debits, credits, Moves, AreCents, post_wallet_gl_entry-balance}
use isp.Billing.Wallet.Service.{
  Plan, write, done, plan_recharge, plan_post, carry_out, recharge, post,
}

module _ (d : Decimal) where
  -- What the wallet ledger says of a subscriber's money.
  abbrev pub ledger_balance : ℕ → List (ℕ × WalletEntry d.Amount) → d.Amount
  ledger_balance id [] = d.zero_amount
  ledger_balance id ((n, e) ∷ legs) =
      let rest = ledger_balance id legs in
      if e.subscriber_id == id && str_eq e.account account_subscriber_wallet
      then if str_eq e.entry_type "credit" then d.add rest e.amount else d.sub rest e.amount
      else rest

  abbrev pub IsBalanced : List (JournalEntry d.Amount) → Type 0
  IsBalanced [] = Unit
  IsBalanced (e ∷ es) = (debits d e.lines ≡ credits d e.lines) × IsBalanced es

  -- Every balance is what the wallet ledger says, not negative and of two decimals; every journal entry balances.
  abbrev pub IsReconciled : Books d.Amount → Type 0
  IsReconciled w =
      ((id : ℕ) (b : d.Amount)
        → w.wallet_balance id ≡ some b
        → (ledger_balance id w.wallet_ledgers ≡ b) × (is_negative d b ≡ false) × IsCents d b)
      × IsBalanced w.gl_journal_entries

  -- The counter leg is not the wallet's, so a posting moves its own subscriber's money alone.
  ledger_balance-posting :
      (p : RechargePosting d.Amount) (b : d.Amount) (id n n' : ℕ)
      (legs : List (ℕ × WalletEntry d.Amount))
      → Moves d p b
      → AreCents d p b
      → ledger_balance p.subscriber_id legs ≡ b
      → ledger_balance id (
          (n, stored_leg d p.credit)
          ∷ (n', stored_leg d (record p.debit { transaction_token = none }))
          ∷ legs)
        ≡ (if p.subscriber_id == id then stored d p.new_balance else ledger_balance id legs)
  ledger_balance-posting p b id n n' legs m x e = elim m.4 [
    | inl c ↦
        rw (m.0, m.1, c.0, c.2, x.0, d.round2_add b p.credit.amount x.2 x.0, sym e)
          (ground (arith, eq_iff p.debit.account account_subscriber_wallet, m.2))
    | inr c ↦
        rw (m.0, m.1, c.0, c.2, x.0, d.round2_sub b p.credit.amount x.2 x.0, sym e)
          (ground (arith, eq_iff p.debit.account account_subscriber_wallet, m.2))
  ]

  module _ (chart : String → Bool) (refuses : RechargePosting d.Amount → Bool) where
    write_posting-IsReconciled :
        (p : RechargePosting d.Amount) (b : d.Amount) (e : JournalEntry d.Amount)
        (w : Books d.Amount)
        → w.wallet_balance p.subscriber_id ≡ some b
        → Moves d p b
        → AreCents d p b
        → is_negative d (stored d p.new_balance) ≡ false
        → debits d e.lines ≡ credits d e.lines
        → IsReconciled w
        → IsReconciled (write_posting d p e w)
    write_posting-IsReconciled p b e w h m x n q r = (
      λ id a k.
          let moved =
            ledger_balance-posting p b id (suc w.next_leg) w.next_leg w.wallet_ledgers m x
              (r.0 p.subscriber_id b h).0 in
          ground (arith, moved, r.0 id a, d.round2_round2 p.new_balance),
      (q, r.1),
    )

    record_recharge-IsReconciled :
        (p : RechargePosting d.Amount) (b : d.Amount) (w : Books d.Amount)
        → w.wallet_balance p.subscriber_id ≡ some b
        → Moves d p b
        → AreCents d p b
        → IsReconciled w
        → IsReconciled (record_recharge d chart refuses p w).0
    record_recharge-IsReconciled p b w h m x r = elim (record_recharge-cases d chart refuses p w) [
      | inl e ↦ rw e r
      | inr (entry, e, fresh, n, g) ↦ rw e (
          write_posting-IsReconciled p b entry w h m x n
            (post_wallet_gl_entry-balance d chart p b (suc w.next_leg) entry m x g) r)
    ]

    module _ (lookup_fails : String → Bool) where
      -- A posting that a plan writes moves money from the balance that the plan read.
      plan_post-Moves :
          (req : PostRequest d.Amount) (w : Books d.Amount) (p : RechargePosting d.Amount)
          → req.counter_account ≢ account_subscriber_wallet
          → plan_post d lookup_fails req w ≡ write p
          → (b : d.Amount) × (w.wallet_balance p.subscriber_id ≡ some b)
            × Moves d p b
            × (p.credit.amount ≡ req.amount)
            × (p.tax_amount ≡ req.tax_amount)
      unfolding plan_post
      plan_post-Moves req w p c h = elim (Option-cases (w.wallet_balance req.subscriber_id)) [
        | inl e ↦ ground (arith, e)
        | inr (b, e) ↦ (
          b,
          ground (arith, e),
          ground (arith, e, eq_iff req.direction "credit", eq_iff req.direction "debit"),
          ground (arith, e),
          ground (arith, e),
        )
      ]

      plan_recharge-Moves :
          (req : RechargeRequest d.Amount) (w : Books d.Amount) (p : RechargePosting d.Amount)
          → plan_recharge d lookup_fails req w ≡ write p
          → (b : d.Amount) × (w.wallet_balance p.subscriber_id ≡ some b)
            × Moves d p b
            × (p.credit.amount ≡ req.amount)
            × (p.tax_amount ≡ d.zero_amount)
      unfolding plan_recharge
      plan_recharge-Moves req w p h = elim (Option-cases (w.wallet_balance req.subscriber_id)) [
        | inl e ↦ ground (arith, e)
        | inr (b, e) ↦ (
          b,
          ground (arith, e),
          ground (arith, e, eq_iff account_gateway_clearing account_subscriber_wallet),
          ground (arith, e),
          ground (arith, e),
        )
      ]

      carry_out-IsReconciled :
          (plan : Plan d.Amount) (w : Books d.Amount)
          → ((p : RechargePosting d.Amount)
              → plan ≡ write p
              → (b : d.Amount) × (w.wallet_balance p.subscriber_id ≡ some b)
                × Moves d p b
                × AreCents d p b)
          → IsReconciled w
          → IsReconciled (carry_out d lookup_fails chart refuses plan w).0
      unfolding carry_out
      carry_out-IsReconciled (done x) w h r = r
      carry_out-IsReconciled (write p) w h r =
          let (b, e, m, x) = h p refl in record_recharge-IsReconciled p b w e m x r

      -- `Recharge` keeps the books, if its amount has two decimals.
      pub recharge-IsReconciled :
          (req : RechargeRequest d.Amount) (w : Books d.Amount)
          → IsCents d req.amount
          → IsReconciled w
          → IsReconciled (recharge d lookup_fails chart refuses req w).0
      unfolding recharge
      recharge-IsReconciled req w x r =
          carry_out-IsReconciled (plan_recharge d lookup_fails req w) w
            (λ p h.
              let (b, e, m, a_is, t_is) = plan_recharge-Moves req w p h in
              (
                b,
                e,
                m,
                (
                  subst (IsCents d) (sym a_is) x,
                  subst (IsCents d) (sym t_is) d.round2_zero,
                  (r.0 p.subscriber_id b e).2,
                ),
              ))
            r

      -- From books in which every subscriber's balance is what the wallet ledger says, not negative and
      -- of two decimals, and every journal entry has equal debits and credits, `Post` leads to such
      -- books: whether it credits or debits, splits off tax, answers an earlier transaction or fails.
      -- The counter account is not the wallet, and the amount and the tax have two decimals.
      pub post-IsReconciled :
          (req : PostRequest d.Amount) (w : Books d.Amount)
          → req.counter_account ≢ account_subscriber_wallet
          → IsCents d req.amount
          → IsCents d req.tax_amount
          → IsReconciled w
          → IsReconciled (post d lookup_fails chart refuses req w).0
      unfolding post
      post-IsReconciled req w c x y r =
          carry_out-IsReconciled (plan_post d lookup_fails req w) w
            (λ p h.
              let (b, e, m, a_is, t_is) = plan_post-Moves req w p c h in
              (
                b,
                e,
                m,
                (
                  subst (IsCents d) (sym a_is) x,
                  subst (IsCents d) (sym t_is) y,
                  (r.0 p.subscriber_id b e).2,
                ),
              ))
            r
