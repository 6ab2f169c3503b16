-- ===== src/Recurring/Store.antt =====
-- The rules, the transactions that they generate, and what the job reads beside them.
use finvo.Prelude.{ℕ, Bool, Option, List}
use finvo.Prelude.Int.{ℤ}
use finvo.Prelude.Text.{Text}
use finvo.Prelude.Exec.{Exec}
use finvo.Ledger.Model.{Transaction, TxType, Accounts, Rates}

-- `RecurringTransaction`; dates are day numbers and `next_execution_at` is an instant.
pub record Rule : Type 0 where
  pub uuid : ℕ
  pub user_uuid : ℕ
  pub tx_type : TxType
  pub source_account_id : Option ℕ
  pub target_account_id : Option ℕ
  pub requires_confirmation : Bool
  pub amount : ℤ
  pub currency : Text
  pub recurrence_rule : Text
  pub timezone : Text
  pub start_date : ℕ
  pub end_date : Option ℕ
  pub exception_dates : List ℕ
  pub next_execution_at : Option ℕ
  pub is_active : Bool

-- a transaction with its rule and its time
pub record Generated : Type 0 where
  pub tx : Transaction
  pub recurring_transaction_id : Option ℕ
  pub transaction_at : ℕ

pub record Tables : Type 0 where
  pub rules : List Rule
  pub transactions : List Generated
  pub accounts : Accounts

-- What the job does not compute itself: the clock, which stands still during a run; the calendar of a
-- rule's time zone, as the day of an instant and the first instant of a day; `rrulestr` and `after` on
-- a rule with a first day, `none` where they raise; the exchange rates and the users' base currencies.
pub record World : Type 0 where
  pub now : ℕ
  pub day_of : ℕ → ℕ
  pub midnight : ℕ → ℕ
  pub after : Text → ℕ → ℕ → Option (Option ℕ)
  pub rates : Rates
  pub rate : Text → Text → Option ℤ
  pub one : ℤ
  pub quantize : ℤ → ℤ
  pub base_currency : ℕ → Text
  pub new_uuid : ℕ

pub data JobError : Type 0 where
  rate_unavailable type_refused : JobError

abbrev pub Job : Type 0 → Type 0
Job A = Exec Tables JobError A
