-- ===== src/Billing/Wallet.antt =====
-- internal/billing/wallet.go: the data of the wallet, and the tables that it is kept in: the
-- subscribers' balances, the wallet ledger and the general ledger, newest first. The operations are
-- in Wallet/Store (the database's) and Wallet/Service.
pub mod Store
pub mod Service
pub mod Journal
pub mod Reconciled
pub mod Retried
pub mod Interleaved
pub mod Debited
use isp.Common.{
  ℕ, suc, String, str_eq, Bool, true, false, not, ◌&&◌, ◌||◌, Option, none, some, List, [], ◌∷◌,
  ◌==◌, if◌then◌else◌,
}
use isp.Common.Decimal.{Decimal, is_negative, is_zero_amount, greater_than_or_equal}

abbrev pub account_subscriber_wallet : String
account_subscriber_wallet = "subscriber_wallet"

abbrev pub account_gateway_clearing : String
account_gateway_clearing = "payment_gateway_clearing"

abbrev pub account_revenue_clearing : String
account_revenue_clearing = "revenue_clearing"

abbrev pub account_adjustment_clearing : String
account_adjustment_clearing = "adjustment_clearing"

unfoldable pub gl_account_code : String → String
gl_account_code account =
    if str_eq account account_subscriber_wallet
    then "1200"
    else if str_eq account account_gateway_clearing
    then "1000"
    else if str_eq account account_revenue_clearing
    then "4000"
    else if str_eq account account_adjustment_clearing
    then "5200"
    else ""

abbrev pub gl_account_gst_payable : String
gl_account_gst_payable = "2200"

abbrev pub gl_revenue_account : String
gl_revenue_account = "4000"

pub record Transaction (A : Type 0) : Type 0 where
  pub id : ℕ
  pub subscriber_id : ℕ
  pub entry_type : String
  pub amount : A
  pub balance_after : A
  pub transaction_token : String
  pub description : String

pub record WalletEntry (A : Type 0) : Type 0 where
  pub subscriber_id : ℕ
  pub franchise_id : Option ℕ
  pub account : String
  pub entry_type : String
  pub amount : A
  pub balance_after : A
  pub transaction_token : Option String
  pub description : String
  pub adjusted_by : String

pub record RechargePosting (A : Type 0) : Type 0 where
  pub subscriber_id : ℕ
  pub debit : WalletEntry A
  pub credit : WalletEntry A
  pub new_balance : A
  pub tax_amount : A

pub record RechargeRequest (A : Type 0) : Type 0 where
  pub subscriber_id : ℕ
  pub amount : A
  pub transaction_token : String
  pub franchise_id : Option ℕ
  pub description : String

pub record PostRequest (A : Type 0) : Type 0 where
  pub subscriber_id : ℕ
  pub franchise_id : Option ℕ
  pub amount : A
  pub direction : String
  pub counter_account : String
  pub transaction_token : String
  pub adjusted_by : String
  pub description : String
  pub tax_amount : A

-- A line of a journal entry: its account's code, its side and its amount.
pub record GlLeg (A : Type 0) : Type 0 where
  pub code : String
  pub entry_type : String
  pub amount : A

pub record JournalEntry (A : Type 0) : Type 0 where
  pub description : String
  pub source_id : ℕ
  pub created_by : String
  pub lines : List (GlLeg A)

pub record Books (A : Type 0) : Type 0 where
  pub wallet_balance : ℕ → Option A
  pub wallet_ledgers : List (ℕ × WalletEntry A)
  pub next_leg : ℕ
  pub gl_journal_entries : List (JournalEntry A)

pub data WalletError : Type 0 where
  amount_not_positive bad_direction bad_tax no_balance insufficient_balance record_failed :
      WalletError

-- What an operation returns: a transaction or an error.
pub data Posted (A : Type 0) : Type 0 where
  posted : Transaction A → Posted A
  refused : WalletError → Posted A

abbrev pub token_text : Option String → String
token_text none = ""
token_text (some t) = t

-- `tokenPtr`: an empty token is no token.
abbrev pub token_of : String → Option String
token_of t = if str_eq t "" then none else some t

abbrev pub has_token : String → Option String → Bool
has_token token none = false
has_token token (some t) = str_eq t token

-- The leg that carries a token, as the transaction it was.
abbrev pub find_token : {A : Type 0} → String → List (ℕ × WalletEntry A) → Option (Transaction A)
find_token token [] = none
find_token token ((n, e) ∷ legs) =
    if has_token token e.transaction_token
    then some (record {
      id = n;
      subscriber_id = e.subscriber_id;
      entry_type = e.entry_type;
      amount = e.amount;
      balance_after = e.balance_after;
      transaction_token = token_text e.transaction_token;
      description = e.description;
    })
    else find_token token legs
