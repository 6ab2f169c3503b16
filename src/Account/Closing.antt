-- ===== src/Account/Closing.antt =====
-- `close_financial_account` of server/app/services/user_service.py: an account is closed after its
-- balance is kept, transferred or written off. The entry for that is made by `create_transaction`,
-- which works on the same tables (`desk_of`). The message of the entry is left out.
use finvo.Prelude.{
  ℕ, Bool, true, false, not, Option, none, some, List, [], ◌∷◌, ltb, ◌==◌, if◌then◌else◌,
}
use finvo.Prelude.Int.{pos, abs, ltb_ℤ, is_zero}
use finvo.Prelude.Lists.{update_where}
use finvo.Prelude.Text.{text_eq}
use finvo.Prelude.Exec.{
  Outcome, ok, err, pure, raise, gets, modify, or_raise, raise_if, ◌>>=◌, ◌>>◌,
}
use finvo.Ledger.Model.{FinancialAccount, Accounts, TxType, expense, income, transfer}
use finvo.Records.Store.{Entry}
use finvo.Records.Creation.{CreateError, Desk, Submission, Surroundings, create_transaction}
use finvo.Account.Model.{
  Account, closed, Store, Lifecycle, account_not_found, already_closed, recurring_active,
  target_required, target_not_found, target_closed, target_currency_mismatch, unknown_disposal,
  not_created, is_closed, is_active, of_user, set_account, count_account_references,
}
use finvo.Account.Lifecycle.{currency_of, recomputed}

pub data Disposal : Type 0 where
  keep transfer_out writeoff unknown : Disposal

abbrev pub row_of : Option Account → Option FinancialAccount
row_of none = none
row_of (some a) = some a.row

abbrev pub is_usable : Option Account → Bool
is_usable none = false
is_usable (some a) = is_active a.status

unfoldable pub entry_of : ℕ → List Entry → Option Entry
entry_of k [] = none
entry_of k (e ∷ rest) = let found = entry_of k rest in if e.tx.uuid == k then some e else found

-- the same session, as `create_transaction` sees it
abbrev pub desk_of : Store → Desk
desk_of s = record {
  books = record {
    entries = λ k. entry_of k s.transactions;
    accounts = λ k. row_of (s.accounts k);
    active = λ k. is_usable (s.accounts k);
  };
  keyed = [];
}

abbrev pub with_row : Option FinancialAccount → Option Account → Option Account
with_row (some row) (some a) = some (record a { row = row })
with_row none a = a
with_row (some row) none = none

abbrev pub with_rows : Accounts → Store → Store
with_rows rows s = record s { accounts = λ k. with_row (rows k) (s.accounts k) }

abbrev pub with_entry : Option Entry → Store → Store
with_entry none s = s
with_entry (some e) s = record s { transactions = e ∷ s.transactions }

abbrev pub back : Outcome CreateError (Bool × ℕ) × Desk → Lifecycle ℕ
back (ok (replay, uuid), d) s =
    (ok uuid, with_entry (d.books.entries uuid) (with_rows d.books.accounts s))
back (err e, d) s = (err (not_created e), with_rows d.books.accounts s)

unfoldable pub create_on : Surroundings → Submission → Lifecycle ℕ
unfolding create_transaction entry_of
create_on site q s = back (create_transaction site q (desk_of s)) s

abbrev pub set_system : ℕ → Store → Store
set_system uuid s = record s {
  transactions =
      update_where (λ e. e.tx.uuid == uuid) (λ e. record e { is_system = true }) s.transactions;
}

abbrev pub submission : ℕ → TxType → Account → Option ℕ → Option ℕ → Submission
submission user_uuid tx_type account source target = record {
  user_uuid = user_uuid;
  amount = abs account.row.current_balance;
  tx_type = tx_type;
  currency = currency_of account;
  source_account_id = source;
  target_account_id = target;
  idempotency_key = none;
}

abbrev pub recompute : Surroundings → ℕ → Lifecycle (Unit {0})
recompute site account_id = do
  found ← gets (λ s. s.accounts account_id)
  account ← or_raise found account_not_found
  modify (recomputed site.rates (site.user_base account.row.user_uuid) account_id account)

-- the system entry that moves the balance, and the balance computed from the transactions
abbrev pub book_disposal : Surroundings → ℕ → Submission → Lifecycle ℕ
book_disposal site account_id q = do
  transaction_id ← create_on site q
  modify (set_system transaction_id)
  recompute site account_id
  pure transaction_id

abbrev pub transfer_entry : ℕ → ℕ → ℕ → Account → Submission
transfer_entry user_uuid account_id target_id account =
    if ltb_ℤ (pos 0) account.row.current_balance
    then submission user_uuid transfer account (some account_id) (some target_id)
    else submission user_uuid transfer account (some target_id) (some account_id)

abbrev pub writeoff_entry : ℕ → ℕ → Account → Submission
writeoff_entry user_uuid account_id account =
    if ltb_ℤ (pos 0) account.row.current_balance
    then submission user_uuid expense account (some account_id) none
    else submission user_uuid income account none (some account_id)

unfoldable pub transfer_balance : Surroundings → ℕ → ℕ → Option ℕ → Account → Lifecycle ℕ
unfolding create_on
transfer_balance site user_uuid account_id none account = raise target_required
transfer_balance site user_uuid account_id (some target_id) account = do
  raise_if (target_id == account_id) target_required
  found ← gets (λ s. of_user user_uuid (s.accounts target_id))
  target ← or_raise found target_not_found
  raise_if (is_closed target.status) target_closed
  raise_if (not (text_eq (currency_of target) (currency_of account))) target_currency_mismatch
  book_disposal site account_id (transfer_entry user_uuid account_id target_id account)

abbrev pub disposed : Disposal → Lifecycle ℕ → Lifecycle (Disposal × Option ℕ)
disposed disposal m = do
  transaction_id ← m
  let result : Disposal × Option ℕ = (disposal, some transaction_id)
  pure result

-- A balance that is not zero is disposed of. The result is the effective disposal and its entry.
abbrev pub dispose :
    Surroundings → ℕ → ℕ → Disposal → Option ℕ → Account → Lifecycle (Disposal × Option ℕ)
dispose site user_uuid account_id keep target account =
    let kept : Disposal × Option ℕ = (keep, none) in pure kept
dispose site user_uuid account_id transfer_out target account =
    disposed transfer_out (transfer_balance site user_uuid account_id target account)
dispose site user_uuid account_id writeoff target account =
    disposed writeoff (book_disposal site account_id (writeoff_entry user_uuid account_id account))
dispose site user_uuid account_id unknown target account = raise unknown_disposal

abbrev pub dispose_unless_zero :
    Surroundings → ℕ → ℕ → Disposal → Option ℕ → Account → Lifecycle (Disposal × Option ℕ)
dispose_unless_zero site user_uuid account_id disposal target account =
    dispose site user_uuid account_id
      (if is_zero account.row.current_balance then keep else disposal) target account

abbrev pub close_row : ℕ → Lifecycle (Unit {0})
close_row account_id = do
  found ← gets (λ s. s.accounts account_id)
  account ← or_raise found account_not_found
  modify (set_account account_id (some (record account { status = closed })))

unfoldable pub close_financial_account :
    Surroundings → ℕ → ℕ → Disposal → Option ℕ → Lifecycle (Disposal × Option ℕ)
unfolding create_on transfer_balance count_account_references
close_financial_account site user_uuid account_id disposal target = do
  found ← gets (λ s. of_user user_uuid (s.accounts account_id))
  account ← or_raise found account_not_found
  raise_if (is_closed account.status) already_closed
  refs ← gets (λ s. count_account_references s account_id)
  raise_if (ltb 0 refs.1) recurring_active
  result ← dispose_unless_zero site user_uuid account_id disposal target account
  close_row account_id
  pure result
