-- ===== src/Accounting/Models.antt =====
-- src/bms/domain/accounting/models.py and chart.py.
use bms_gui.Prelude.{String, Bool, true, List, [], ◌∷◌, ℤ, pos, eqb_ℤ}
use bms_gui.Dict.{Dict}

pub data AccountType : Type 0 where
  asset liability equity revenue expense : AccountType

pub record Account : Type 0 where
  pub code : String
  pub name : String
  pub account_type : AccountType
  pub active : Bool

pub record JournalLine : Type 0 where
  pub account_code : String
  pub debit_minor : ℤ
  pub credit_minor : ℤ
  pub currency : String
  pub memo : String

pub record PostJournalCommand : Type 0 where
  pub journal_id : String
  pub period_id : String
  pub timestamp : String
  pub actor_id : String
  pub source_module : String
  pub source_document_id : String
  pub correlation_id : String
  pub description : String
  pub lines : List JournalLine

pub record JournalResult : Type 0 where
  pub journal_id : String
  pub debit_total_minor : ℤ
  pub credit_total_minor : ℤ
  pub currency : String

pub record LedgerBalance : Type 0 where
  pub period_id : String
  pub account_code : String
  pub account_name : String
  pub account_type : AccountType
  pub debit_total_minor : ℤ
  pub credit_total_minor : ℤ
  pub balance_minor : ℤ
  pub currency : String

pub record TrialBalance : Type 0 where
  pub period_id : String
  pub debit_total_minor : ℤ
  pub credit_total_minor : ℤ

abbrev pub is_balanced : TrialBalance → Bool
is_balanced t = eqb_ℤ t.debit_total_minor t.credit_total_minor

-- A line with one amount; the other is 0 by default.
abbrev pub debit_line : String → ℤ → String → String → JournalLine
debit_line account amount currency memo = record {
  account_code = account;
  debit_minor = amount;
  credit_minor = pos 0;
  currency = currency;
  memo = memo;
}

abbrev pub credit_line : String → ℤ → String → String → JournalLine
credit_line account amount currency memo = record {
  account_code = account;
  debit_minor = pos 0;
  credit_minor = amount;
  currency = currency;
  memo = memo;
}

abbrev account : String → String → AccountType → String × Account
account code name type =
    (code, record { code = code; name = name; account_type = type; active = true })

abbrev pub baseline_chart_of_accounts : Dict String Account
baseline_chart_of_accounts =
    account "1000" "Cash" asset
    ∷ account "1010" "Bank" asset
    ∷ account "1100" "Accounts Receivable" asset
    ∷ account "1200" "Inventory" asset
    ∷ account "1300" "GST Input Tax Receivable" asset
    ∷ account "2000" "Accounts Payable" liability
    ∷ account "2100" "GST Output Tax Payable" liability
    ∷ account "3000" "Owner Equity" equity
    ∷ account "4000" "Sales Revenue" revenue
    ∷ account "4100" "Sales Returns" revenue
    ∷ account "5000" "Cost of Goods Sold" expense
    ∷ account "5100" "Inventory Adjustment Expense" expense
    ∷ []
