-- ===== src/Billing/Wallet/Store.antt =====
-- internal/db/billing.go: the statements that read a balance and write a posting. A failed
-- transaction is rolled back, so it leaves the tables alone. `chart` says which account codes the
-- chart of accounts has and `refuses` which postings the database refuses for a reason of its own
-- (a lost connection, a foreign key of the franchise, an amount too large for its column, a check of
-- the general ledger's lines). The columns of amounts have two decimals, to which they round.
use isp.Common.{
  ℕ, suc, ◌≡◌, ◌⊎◌, inl, inr, refl, String, str_eq, Bool, true, false, ◌&&◌, ◌||◌, Option, none,
  some, List, [], ◌∷◌, ◌==◌, Bool-cases, Option-cases, arith, if◌then◌else◌,
}
use isp.Common.Decimal.{Decimal, is_negative, is_zero_amount, stored}
use isp.Billing.Wallet.{
  Transaction, WalletEntry, RechargePosting, GlLeg, JournalEntry, Books, gl_account_code,
  gl_account_gst_payable, gl_revenue_account, token_text, find_token,
}

abbrev pub all_in_chart : {A : Type 0} → (String → Bool) → List (GlLeg A) → Bool
all_in_chart chart [] = true
all_in_chart chart (l ∷ ls) = chart l.code && all_in_chart chart ls

-- A token that a leg already holds breaks the unique index.
abbrev pub token_taken : {A : Type 0} → Option String → List (ℕ × WalletEntry A) → Bool
token_taken none legs = false
token_taken (some t) legs = elim (find_token t legs) [ none ↦ false | some x ↦ true ]

module _ (d : Decimal) where
  -- The legs of one code lose the tax to a leg on the tax account.
  unfoldable pub split_legs :
      List (GlLeg d.Amount) → String → d.Amount → Option (List (GlLeg d.Amount))
  split_legs [] counter_code tax = some []
  split_legs (leg ∷ legs) counter_code tax =
      let rest = split_legs legs counter_code tax in
      let net = d.sub leg.amount tax in
      if str_eq leg.code counter_code
      then if d.less_than_or_equal net d.zero_amount then none else elim rest [
        | none ↦ none
        | some out ↦ some (
            record leg { amount = net }
            ∷ record leg { code = gl_account_gst_payable; amount = tax }
            ∷ out)
      ]
      else elim rest [ none ↦ none | some out ↦ some (leg ∷ out) ]

  unfoldable pub split_tax_leg :
      List (GlLeg d.Amount) → String → d.Amount → Option (List (GlLeg d.Amount))
  split_tax_leg legs counter_code tax =
      if is_zero_amount d tax
      then some legs
      else if str_eq counter_code gl_revenue_account
      then split_legs legs counter_code tax
      else none

  -- The lines, as `gl_journal_lines` keeps them.
  abbrev pub stored_lines : List (GlLeg d.Amount) → List (GlLeg d.Amount)
  stored_lines [] = []
  stored_lines (l ∷ ls) = record l { amount = stored d l.amount } ∷ stored_lines ls

  -- A leg, as `wallet_ledgers` keeps it.
  abbrev pub stored_leg : WalletEntry d.Amount → WalletEntry d.Amount
  stored_leg e = record e { amount = stored d e.amount; balance_after = stored d e.balance_after }

  -- The journal entry of a posting, if all its accounts are known.
  unfoldable pub post_wallet_gl_entry :
      (String → Bool) → RechargePosting d.Amount → ℕ → Option (JournalEntry d.Amount)
  post_wallet_gl_entry chart p wallet_leg_id =
      let debit_code = gl_account_code p.debit.account in
      let credit_code = gl_account_code p.credit.account in
      let created_by = p.credit.adjusted_by in
      let legs =
        record { code = debit_code; entry_type = p.debit.entry_type; amount = p.debit.amount }
        ∷ record { code = credit_code; entry_type = p.credit.entry_type; amount = p.credit.amount }
        ∷ [] in
      if str_eq debit_code "" || str_eq credit_code ""
      then none
      else elim (split_tax_leg legs debit_code p.tax_amount) [
        | none ↦ none
        | some out ↦
            if all_in_chart chart out
            then some (record {
              description = p.credit.description;
              source_id = wallet_leg_id;
              created_by = if str_eq created_by "" then "system" else created_by;
              lines = stored_lines out;
            })
            else none
      ]

  abbrev pub write_posting :
      RechargePosting d.Amount → JournalEntry d.Amount → Books d.Amount → Books d.Amount
  write_posting p entry w = record {
    wallet_balance =
        λ id. if p.subscriber_id == id then some (stored d p.new_balance) else w.wallet_balance id;
    wallet_ledgers =
        (suc w.next_leg, stored_leg p.credit)
        ∷ (w.next_leg, stored_leg (record p.debit { transaction_token = none }))
        ∷ w.wallet_ledgers;
    next_leg = suc (suc w.next_leg);
    gl_journal_entries = entry ∷ w.gl_journal_entries;
  }

  abbrev pub transaction_of : RechargePosting d.Amount → ℕ → Transaction d.Amount
  transaction_of p credit_id = record {
    id = credit_id;
    subscriber_id = p.credit.subscriber_id;
    entry_type = p.credit.entry_type;
    amount = p.credit.amount;
    balance_after = p.new_balance;
    transaction_token = token_text p.credit.transaction_token;
    description = p.credit.description;
  }

  module _ (chart : String → Bool) (refuses : RechargePosting d.Amount → Bool) where
    -- A subscriber that does not exist, a token that is taken or a balance below zero breaks a
    -- constraint of the schema.
    unfoldable pub record_recharge :
        RechargePosting d.Amount → Books d.Amount → Books d.Amount × Option (Transaction d.Amount)
    record_recharge p w = elim (w.wallet_balance p.subscriber_id) [
      | none ↦ (w, none)
      | some b ↦
          if refuses p
            || (token_taken p.credit.transaction_token w.wallet_ledgers
                || is_negative d (stored d p.new_balance))
          then (w, none)
          else elim (post_wallet_gl_entry chart p (suc w.next_leg)) [
            | none ↦ (w, none)
            | some entry ↦ (write_posting p entry w, some (transaction_of p (suc w.next_leg)))
          ]
    ]

    -- A write happens as a whole, past every constraint, or not at all.
    pub record_recharge-cases :
        (p : RechargePosting d.Amount) (w : Books d.Amount)
        → (record_recharge p w ≡ (w, none))
          ⊎ ((e : JournalEntry d.Amount) × (record_recharge p w
                ≡ (write_posting p e w, some (transaction_of p (suc w.next_leg))))
              × (token_taken p.credit.transaction_token w.wallet_ledgers ≡ false)
              × (is_negative d (stored d p.new_balance) ≡ false)
              × (post_wallet_gl_entry chart p (suc w.next_leg) ≡ some e))
    unfolding record_recharge
    record_recharge-cases p w = elim (Option-cases (w.wallet_balance p.subscriber_id)) [
      | inl e ↦ inl (rw (record_recharge, e) refl)
      | inr (b, e) ↦
          elim (Bool-cases (
            refuses p
            || (token_taken p.credit.transaction_token w.wallet_ledgers
                || is_negative d (stored d p.new_balance)))) [
                  | inl r ↦ inl (rw (record_recharge, e, r) refl)
                  | inr r ↦ elim (Option-cases (post_wallet_gl_entry chart p (suc w.next_leg))) [
                    | inl g ↦ inl (rw (record_recharge, e, r, g) refl)
                    | inr (entry, g) ↦ inr (
                      entry,
                      rw (record_recharge, e, r, g) refl,
                      ground (arith, r),
                      ground (arith, r),
                      g,
                    )
                  ]
                ]
    ]
