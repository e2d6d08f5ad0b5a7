-- ===== src/Examples/Billing.antt =====
-- One subscriber's wallet, in whole rupees.
use mathlib.Core.List.{Memᴰ}
use isp.Common.{
  ℕ, ◌≡◌, ◌/◌, ◌==◌, refl, inl, inr, String, Bool, true, false, none, some, [], ◌∷◌, arith,
  if◌then◌else◌,
}
use isp.Common.Bytes.{text}
use isp.Common.Int.{
  ℤ, pos, pos_part, ◌+ℤ◌, ◌-ℤ◌, ◌*ℤ◌, leb_ℤ, +ℤ_comm, +ℤ_assoc, +ℤ_zero, -ℤ_cancel, leb_ℤ_add,
  leb_ℤ_total, leb_ℤ_sub,
}
use isp.Common.Decimal.{Decimal}
use isp.Billing.Wallet.{
  PostRequest, RechargePosting, Transaction, Books, posted, find_token, account_subscriber_wallet,
}
use isp.Billing.Wallet.Service.{post, plan_post, carry_out, post_posting}
use isp.Billing.Wallet.Reconciled.{IsReconciled, ledger_balance, post-IsReconciled}
use isp.Billing.Wallet.Retried.{post-post}
use isp.Billing.Wallet.Interleaved.{interleave, interleaved_debits}
use isp.Billing.State.{State, gst_states}
use isp.Billing.State.Spelling.{find_state-Mem}
use isp.Billing.Gst.{GstRate, invoice_of, tax_at, calculate_gst_invoice_from}
use isp.Billing.Gst.Heads.{gst_heads}

-- Whole numbers, with a division of their absolute values that rounds down.
abbrev pub rupees : Decimal
rupees = record {
  Amount = ℤ;
  zero_amount = pos 0;
  hundred = pos 100;
  add = ◌+ℤ◌;
  sub = ◌-ℤ◌;
  mul = ◌*ℤ◌;
  div = λ a b. pos (pos_part a / pos_part b);
  round2 = λ a. a;
  less_than_or_equal = leb_ℤ;
  add_comm = +ℤ_comm;
  add_assoc = +ℤ_assoc;
  add_zero = +ℤ_zero;
  sub_add = -ℤ_cancel;
  add_nonneg = leb_ℤ_add;
  total = leb_ℤ_total;
  sub_sign = leb_ℤ_sub;
  round2_round2 = λ a. refl;
  round2_zero = refl;
  round2_add = λ a b h k. refl;
  round2_sub = λ a b h k. refl;
}

abbrev pub no_failure : String → Bool
no_failure t = false

abbrev pub whole_chart : String → Bool
whole_chart code = true

abbrev pub no_refusal : RechargePosting ℤ → Bool
no_refusal p = false

-- Subscriber 4 has 100 rupees, from a recharge.
abbrev pub books : Books ℤ
books = record {
  wallet_balance = λ id. if id == 4 then some (pos 100) else none;
  wallet_ledgers =
      (
        2,
        record {
          subscriber_id = 4;
          franchise_id = none;
          account = "subscriber_wallet";
          entry_type = "credit";
          amount = pos 100;
          balance_after = pos 100;
          transaction_token = some "pay_1";
          description = "recharge";
          adjusted_by = "";
        },
      )
      ∷ [];
  next_leg = 3;
  gl_journal_entries = [];
}

pub books-IsReconciled : IsReconciled rupees books
unfolding ◌+ℤ◌
books-IsReconciled = (λ id b h. ground arith, tt)

abbrev debit : String → ℕ → PostRequest ℤ
debit token amount = record {
  subscriber_id = 4;
  franchise_id = none;
  amount = pos amount;
  direction = "debit";
  counter_account = "revenue_clearing";
  transaction_token = token;
  adjusted_by = "";
  description = "plan";
  tax_amount = pos 9;
}

post-IsReconciled_example :
    IsReconciled rupees (post rupees no_failure whole_chart no_refusal (debit "t" 59) books).0
post-IsReconciled_example =
    post-IsReconciled rupees whole_chart no_refusal no_failure (debit "t" 59) books (λ e. cc) refl
      refl books-IsReconciled

abbrev transaction : Transaction ℤ
transaction = record {
  id = 4;
  subscriber_id = 4;
  entry_type = "debit";
  amount = pos 59;
  balance_after = pos 41;
  transaction_token = "t";
  description = "plan";
}

post-post_example :
    post rupees no_failure whole_chart no_refusal
      (debit "t" 59)
      (post rupees no_failure whole_chart no_refusal (debit "t" 59) books).0
    ≡ ((post rupees no_failure whole_chart no_refusal (debit "t" 59) books).0, posted transaction)
unfolding post carry_out plan_post ◌-ℤ◌ isp.Billing.Wallet.Store.record_recharge
    isp.Billing.Wallet.Store.post_wallet_gl_entry isp.Billing.Wallet.gl_account_code
    isp.Billing.Wallet.Store.split_tax_leg isp.Billing.Wallet.Store.split_legs
post-post_example =
    post-post rupees no_failure whole_chart no_refusal (debit "t" 59) books transaction
      (refl, refl, tt) (λ e. cc) refl refl

abbrev after_debit : ℕ → ℕ → Transaction ℤ
after_debit id left = record {
  id = id;
  subscriber_id = 4;
  entry_type = "debit";
  amount = pos 59;
  balance_after = pos left;
  transaction_token = "";
  description = "plan";
}

interleaved_debits_example :
    ((interleave rupees no_failure whole_chart no_refusal
          (debit "" 59)
          (debit "" 59)
          books).wallet_balance
        4
      ≡ some (pos 100 -ℤ pos 59))
    × (ledger_balance rupees 4
          (interleave rupees no_failure whole_chart no_refusal
            (debit "" 59)
            (debit "" 59)
            books).wallet_ledgers
        ≡ pos 100 -ℤ pos 59 -ℤ pos 59)
unfolding plan_post carry_out ◌-ℤ◌ isp.Billing.Wallet.Store.record_recharge
    isp.Billing.Wallet.Store.post_wallet_gl_entry isp.Billing.Wallet.gl_account_code
    isp.Billing.Wallet.Store.split_tax_leg isp.Billing.Wallet.Store.split_legs
interleaved_debits_example =
    interleaved_debits rupees no_failure whole_chart no_refusal (debit "" 59) (debit "" 59) books
      (pos 100) (post_posting rupees (debit "" 59) (pos 41))
      (post_posting rupees (debit "" 59) (pos 41)) (after_debit 4 41) (after_debit 6 41)
      books-IsReconciled refl refl (refl, refl) (λ e. cc, λ e. cc) (refl, refl) refl refl

abbrev tamil_nadu : State
tamil_nadu = record { code = text "TN"; gst_code = text "33"; name = text "Tamil Nadu" }

tamil_nadu_is_registered : Memᴰ tamil_nadu gst_states
tamil_nadu_is_registered = (find_state-Mem (λ s. s.code) (text "TN") gst_states tamil_nadu refl).0

abbrev pub rate : GstRate ℤ
rate = record { id = 1; cgst_rate = pos 9; sgst_rate = pos 9; igst_rate = pos 18 }

gst_heads_example :
    (calculate_gst_invoice_from rupees (pos 500) (text "33") (text "tamilnadu") rate
      ≡ invoice_of rupees
          (pos 500)
          (tax_at rupees (pos 500) (pos 9))
          (tax_at rupees (pos 500) (pos 9))
          (pos 0)
          rate)
    × (let inv = calculate_gst_invoice_from rupees (pos 500) (text "33") (text "tamilnadu") rate in
        inv.total_amount
        ≡ inv.base_amount +ℤ (inv.cgst_amount +ℤ inv.sgst_amount +ℤ inv.igst_amount))
gst_heads_example =
    gst_heads rupees tamil_nadu tamil_nadu (text "33") (text "tamilnadu") (pos 500) rate
      tamil_nadu_is_registered tamil_nadu_is_registered (inr (inl refl)) (inr (inr refl))
