-- ===== src/Records/Store.antt =====
-- The tables that the operations of crud_service.py share, and the guards of the operations.
use finvo.Prelude.{ℕ, Bool, true, false, Option, ◌==◌, if◌then◌else◌}
use finvo.Prelude.Exec.{Exec, Outcome, ok, err, pure, gets, or_raise, raise_if, ◌>>=◌, ◌>>◌}
use finvo.Ledger.Model.{
  Transaction, TxStatus, pending, TxType, income, Accounts, Booking, LedgerError,
  exchange_rate_unavailable,
}

-- a transaction, and the test `source == SYSTEM_TRANSACTION_SOURCE`
pub record Entry : Type 0 where
  pub tx : Transaction
  pub is_system : Bool

-- `active` is the test of `FinancialAccount.status`.
pub record Books : Type 0 where
  pub entries : ℕ → Option Entry
  pub accounts : Accounts
  pub active : ℕ → Bool

pub data RecordError : Type 0 where
  transaction_not_found permission_denied system_readonly not_pending : RecordError
  invalid_account account_link_closed amount_not_positive : RecordError
  rate_unavailable : RecordError

abbrev pub Operation : Type 0 → Type 0
Operation A = Exec Books RecordError A

abbrev pub as_record_error : {A : Type 0} → Outcome LedgerError A → Outcome RecordError A
as_record_error (ok a) = ok a
as_record_error (err exchange_rate_unavailable) = err rate_unavailable

-- a call of the ledger service, on the accounts of the session
abbrev pub booked : {A : Type 0} → Booking A → Operation A
booked m s =
    let (r, accounts) = m s.accounts in (as_record_error r, record s { accounts = accounts })

abbrev pub set_entry : ℕ → Option Entry → Books → Books
set_entry k e s = record s { entries = λ j. if j == k then e else s.entries j }

abbrev pub is_pending : TxStatus → Bool
is_pending pending = true
is_pending _ = false

abbrev pub is_income : TxType → Bool
is_income income = true
is_income _ = false

-- The query by key with its two checks, and `_ensure_mutable`, as each operation begins.
unfoldable pub get_mutable : ℕ → ℕ → Operation Entry
get_mutable transaction_id user_uuid = do
  found ← gets (λ s. s.entries transaction_id)
  entry ← or_raise found transaction_not_found
  raise_if (if entry.tx.user_uuid == user_uuid then false else true) permission_denied
  raise_if entry.is_system system_readonly
  pure entry

-- `_get_owned_transaction`
unfoldable pub get_owned_transaction : ℕ → ℕ → Operation Entry
get_owned_transaction transaction_id user_uuid = do
  found ← gets (λ s. s.entries transaction_id)
  entry ← or_raise found transaction_not_found
  raise_if (if entry.tx.user_uuid == user_uuid then false else true) transaction_not_found
  pure entry
