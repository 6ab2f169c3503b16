-- ===== src/Ledger/Model.antt =====
-- The rows of server/app/models/financial_account.py and models/transaction.py that balances depend
-- on. A table keyed by its primary key is a function. Amounts and rates are counted in units of
-- 10^-8, the last place of `Numeric(20, 8)`.
use finvo.Prelude.{ℕ, Option, some, ◌==◌, if◌then◌else◌}
use finvo.Prelude.Int.{ℤ, ◌+ℤ◌, neg}
use finvo.Prelude.Text.{Text}
use finvo.Prelude.Exec.{Exec}

-- `Transaction.type`
pub data TxType : Type 0 where
  expense income transfer : TxType
  other_type : Text → TxType

-- `Transaction.status`
pub data TxStatus : Type 0 where
  cleared pending confirmed : TxStatus
  other_status : Text → TxStatus

pub record FinancialAccount : Type 0 where
  pub user_uuid : ℕ
  pub currency_code : Text
  pub initial_balance : ℤ
  pub current_balance : ℤ

pub record Transaction : Type 0 where
  pub uuid : ℕ
  pub user_uuid : ℕ
  pub tx_type : TxType
  pub status : TxStatus
  pub amount : ℤ
  pub amount_original : ℤ
  pub currency : Text
  pub exchange_rate : Option ℤ
  pub source_account_id : Option ℕ
  pub target_account_id : Option ℕ

-- What the ledger does not compute itself: `exchange_rate_service.convert` at the moment of the
-- call, `none` if it raises or has no rate, and the division and multiplication of Python's
-- `Decimal`, which round to its context.
pub record Rates : Type 0 where
  pub live : Text → Text → ℤ → Option ℤ
  pub quot : ℤ → ℤ → ℤ
  pub prod : ℤ → ℤ → ℤ

abbrev pub Accounts : Type 0
Accounts = ℕ → Option FinancialAccount

pub data LedgerError : Type 0 where
  exchange_rate_unavailable : LedgerError

abbrev pub Booking : Type 0 → Type 0
Booking A = Exec Accounts LedgerError A

-- the factors 1 and -1 of `sign` and `direction`
pub data Sign : Type 0 where
  plus minus : Sign

abbrev pub times : Sign → Sign → Sign
times plus d = d
times minus plus = minus
times minus minus = plus

abbrev pub signed : Sign → ℤ → ℤ
signed plus e = e
signed minus e = neg e

-- an assignment to the row with the key `k`
abbrev pub put : ℕ → FinancialAccount → Accounts → Accounts
put k a accounts j = if k == j then some a else accounts j

-- `account.current_balance = account.current_balance + delta`; the time of the update is left out.
abbrev pub moved : FinancialAccount → ℤ → FinancialAccount
moved a delta = record a { current_balance = a.current_balance +ℤ delta }
