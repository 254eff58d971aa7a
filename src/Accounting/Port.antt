-- ===== src/Accounting/Port.antt =====
-- `AccountingPort` of src/bms/domain/accounting/ports.py, and the service as an instance of it.
use bms_gui.Prelude.{String, Bool, str_in}
use bms_gui.Dict.{Dict}
use bms_gui.Result.{Result}
use bms_gui.Exec.{Exec}
use bms_gui.Store.{Env, World}
use bms_gui.Accounting.Models.{Account, PostJournalCommand, JournalResult, TrialBalance}
use bms_gui.Accounting.Posting.{post_journal}
use bms_gui.Accounting.Balances.{get_trial_balance}

pub record AccountingPort : Type 0 where
  pub post_journal : PostJournalCommand → Exec World JournalResult
  pub is_period_closed : String → World → Bool
  pub get_trial_balance : String → World → Result TrialBalance

-- `AccountingService.is_period_closed`
unfoldable pub is_period_closed : String → World → Bool
is_period_closed period_id w = str_in period_id w.closed_periods

abbrev pub accounting_service : Env → Dict String Account → AccountingPort
accounting_service env accounts = record {
  post_journal = post_journal env accounts;
  is_period_closed = is_period_closed;
  get_trial_balance = get_trial_balance env;
}
