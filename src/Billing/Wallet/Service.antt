-- ===== src/Billing/Wallet/Service.antt =====
-- internal/billing/wallet.go: `WalletService`. `plan_recharge` and `plan_post` are the part of
-- `Recharge` and `Post` up to the write: what they read of the tables decides the answer or the
-- posting to write. `lookup_fails` says on which tokens the look-up of an earlier transaction fails.
use Prim.Native.String.{◌++◌}
use isp.Common.{String, str_eq, Bool, not, ◌&&◌, ◌||◌, Option, none, some, if◌then◌else◌}
use isp.Common.Decimal.{Decimal, is_negative, greater_than_or_equal}
use isp.Billing.Wallet.{
  RechargePosting, RechargeRequest, PostRequest, Transaction, Books, amount_not_positive,
  bad_direction, bad_tax, no_balance, insufficient_balance, record_failed, Posted, posted, refused,
  token_of, find_token, account_subscriber_wallet, account_gateway_clearing,
}
use isp.Billing.Wallet.Store.{record_recharge}

-- What is left to do after the reads.
pub data Plan (A : Type 0) : Type 0 where
  done : Posted A → Plan A
  write : RechargePosting A → Plan A

module _ (d : Decimal) where
  abbrev pub post_posting : PostRequest d.Amount → d.Amount → RechargePosting d.Amount
  post_posting req new_balance = record {
    subscriber_id = req.subscriber_id;
    debit = record {
      subscriber_id = req.subscriber_id;
      franchise_id = req.franchise_id;
      account = req.counter_account;
      entry_type = if str_eq req.direction "debit" then "credit" else "debit";
      amount = req.amount;
      balance_after = new_balance;
      transaction_token = none;
      description = "counter-entry: " ++ req.description;
      adjusted_by = "";
    };
    credit = record {
      subscriber_id = req.subscriber_id;
      franchise_id = req.franchise_id;
      account = account_subscriber_wallet;
      entry_type = req.direction;
      amount = req.amount;
      balance_after = new_balance;
      transaction_token = token_of req.transaction_token;
      description = req.description;
      adjusted_by = req.adjusted_by;
    };
    new_balance = new_balance;
    tax_amount = req.tax_amount;
  }

module _ (d : Decimal) (lookup_fails : String → Bool) where
  -- The transaction that already carries the token, if the look-up finds it.
  abbrev pub existing : String → Books d.Amount → Option (Transaction d.Amount)
  existing token w =
      if str_eq token "" || lookup_fails token then none else find_token token w.wallet_ledgers

  unfoldable pub plan_recharge : RechargeRequest d.Amount → Books d.Amount → Plan d.Amount
  plan_recharge req w =
      if d.less_than_or_equal req.amount d.zero_amount
      then done (refused amount_not_positive)
      else elim (existing req.transaction_token w) [
        | some t ↦ done (posted t)
        | none ↦ elim (w.wallet_balance req.subscriber_id) [
          | none ↦ done (refused no_balance)
          | some b ↦
              let new_balance = d.add b req.amount in
              write (record {
                subscriber_id = req.subscriber_id;
                debit = record {
                  subscriber_id = req.subscriber_id;
                  franchise_id = req.franchise_id;
                  account = account_gateway_clearing;
                  entry_type = "debit";
                  amount = req.amount;
                  balance_after = new_balance;
                  transaction_token = none;
                  description = "counter-entry: " ++ req.description;
                  adjusted_by = "";
                };
                credit = record {
                  subscriber_id = req.subscriber_id;
                  franchise_id = req.franchise_id;
                  account = account_subscriber_wallet;
                  entry_type = "credit";
                  amount = req.amount;
                  balance_after = new_balance;
                  transaction_token = token_of req.transaction_token;
                  description = req.description;
                  adjusted_by = "";
                };
                new_balance = new_balance;
                tax_amount = d.zero_amount;
              })
        ]
      ]

  unfoldable pub plan_post : PostRequest d.Amount → Books d.Amount → Plan d.Amount
  plan_post req w =
      if d.less_than_or_equal req.amount d.zero_amount
      then done (refused amount_not_positive)
      else if not (str_eq req.direction "credit") && not (str_eq req.direction "debit")
      then done (refused bad_direction)
      else if is_negative d req.tax_amount || greater_than_or_equal d req.tax_amount req.amount
      then done (refused bad_tax)
      else elim (existing req.transaction_token w) [
        | some t ↦ done (posted t)
        | none ↦ elim (w.wallet_balance req.subscriber_id) [
          | none ↦ done (refused no_balance)
          | some b ↦
              if str_eq req.direction "credit"
              then write (post_posting d req (d.add b req.amount))
              else if is_negative d (d.sub b req.amount)
              then done (refused insufficient_balance)
              else write (post_posting d req (d.sub b req.amount))
        ]
      ]

  module _ (chart : String → Bool) (refuses : RechargePosting d.Amount → Bool) where
    -- The write, and the answer of the service.
    unfoldable pub carry_out : Plan d.Amount → Books d.Amount → Books d.Amount × Posted d.Amount
    carry_out (done r) w = (w, r)
    carry_out (write p) w =
        let r = record_recharge d chart refuses p w in
        (
          r.0,
          elim r.1 [
            | none ↦ refused record_failed
            | some t ↦ posted (record t { balance_after = p.new_balance })
          ],
        )

    unfoldable pub recharge :
        RechargeRequest d.Amount → Books d.Amount → Books d.Amount × Posted d.Amount
    recharge req w = carry_out (plan_recharge req w) w

    unfoldable pub post : PostRequest d.Amount → Books d.Amount → Books d.Amount × Posted d.Amount
    post req w = carry_out (plan_post req w) w
