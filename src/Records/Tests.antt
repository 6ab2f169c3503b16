-- ===== src/Records/Tests.antt =====
-- Runs of the operations on one pending expense.
use finvo.Prelude.{ℕ, [], ◌≡◌, refl, Bool, true, false, none, some, ◌==◌, if◌then◌else◌, ◌||◌}
use finvo.Prelude.Int.{pos}
use finvo.Prelude.Text.{Text, codes, upper, or_text, text_eq}
use finvo.Prelude.Lists.{select}
use finvo.Prelude.Exec.{ok, final}
use finvo.Ledger.Effects.{
  account_currency, convert_snapshot_amount, get_account, apply_account_balance_effect,
  apply_transaction_balance_effect,
}
use finvo.Ledger.Model.{
  expense, TxStatus, cleared, pending, FinancialAccount, Transaction, Rates, times, minus,
}
use finvo.Ledger.Convert.{convert_snapshot_to_currency}
use finvo.Ledger.Laws.Pointwise.{delta, shifted}
use finvo.Records.Operations.{
  delete_transaction, confirm_pending_transaction, update_transaction_account, relink,
  check_account,
}
use finvo.Records.Laws.Deletion.{delete_transaction-confirmed}
use finvo.Records.Laws.Relinking.{update_transaction_account-moves}
use finvo.Records.Store.{get_mutable, Books, get_owned_transaction}
use finvo.Records.Creation.{Desk, Surroundings, Submission, create_transaction}
use finvo.Records.Laws.Creation.{create_transaction-replays}

abbrev rates : Rates
rates = record { live = λ from to x. none; quot = λ a b. a; prod = λ a b. a }

abbrev cny : Text
cny = codes "CNY"

abbrev wallet : FinancialAccount
wallet = record {
  user_uuid = 9;
  currency_code = cny;
  initial_balance = pos 1000;
  current_balance = pos 1000;
}

abbrev rent : TxStatus → Transaction
rent status = record {
  uuid = 7;
  user_uuid = 9;
  tx_type = expense;
  status = status;
  amount = pos 100;
  amount_original = pos 100;
  currency = cny;
  exchange_rate = none;
  source_account_id = some 1;
  target_account_id = none;
}

abbrev books : TxStatus → Bool → Books
books status is_system = record {
  entries = λ k. if k == 7 then some (record { tx = rent status; is_system = is_system }) else none;
  accounts = λ k. if k == 1 || k == 2 then some wallet else none;
  active = λ k. true;
}

no_live_rate :
    (a : FinancialAccount)
    → convert_snapshot_amount rates (pos 100) (pos 100) cny (account_currency a cny) cny false
      ≡ convert_snapshot_amount rates (pos 100) (pos 100) cny (account_currency a cny) cny true
unfolding convert_snapshot_amount convert_snapshot_to_currency
no_live_rate a = refl

delete_transaction-confirmed_example :
    let confirmation = final (confirm_pending_transaction rates cny 7 9 (books pending false)) in
    let deletion = delete_transaction rates cny 7 9 confirmation in
    (deletion.0 ≡ ok tt)
    × ((final deletion).entries 7 ≡ none)
    × ((j : ℕ) → (final deletion).accounts j ≡ (books pending false).accounts j)
unfolding confirm_pending_transaction get_owned_transaction apply_transaction_balance_effect
    apply_account_balance_effect get_account convert_snapshot_amount convert_snapshot_to_currency
    upper or_text text_eq
delete_transaction-confirmed_example =
    delete_transaction-confirmed rates cny 7 9 (books pending false)
      (record { tx = rent pending; is_system = false }) refl refl refl refl no_live_rate refl

update_transaction_account-moves_example :
    let after = final (update_transaction_account rates cny 7 9 (some 2) (books cleared false)) in
    let start = books cleared false in
    (after.accounts 1
      ≡ shifted (delta rates (rent cleared) 9 cny (times minus minus) true) (start.accounts 1))
    × (after.accounts 2 ≡ shifted (delta rates (rent cleared) 9 cny minus true) (start.accounts 2))
    × ((j : ℕ) → (1 == j) ≡ false → (2 == j) ≡ false → after.accounts j ≡ start.accounts j)
unfolding update_transaction_account get_mutable relink check_account apply_account_balance_effect
    get_account convert_snapshot_amount convert_snapshot_to_currency upper or_text text_eq
update_transaction_account-moves_example =
    update_transaction_account-moves rates cny 7 9 1 2 (books cleared false)
      (record { tx = rent cleared; is_system = false }) refl refl refl refl refl refl refl refl refl

abbrev desk : Desk
desk = record { books = books cleared false; keyed = [] }

abbrev surroundings : Surroundings
surroundings = record {
  rates = rates;
  user_base = λ u. cny;
  rate = λ from to. none;
  one = pos 1;
  quantize = λ a. a;
  new_uuid = 8;
  rival = none;
}

abbrev lunch : Submission
lunch = record {
  user_uuid = 9;
  amount = pos 100;
  tx_type = expense;
  currency = cny;
  source_account_id = some 1;
  target_account_id = none;
  idempotency_key = some (codes "k1");
}

booked_once : (create_transaction surroundings lunch desk).0 ≡ ok (false, 8)
unfolding create_transaction select upper apply_account_balance_effect convert_snapshot_amount
    convert_snapshot_to_currency text_eq or_text
booked_once = refl

create_transaction-replays_example :
    let after = final (create_transaction surroundings lunch desk) in
    ((create_transaction surroundings lunch after).0 ≡ ok (true, 8))
    × (final (create_transaction surroundings lunch after) ≡ after)
create_transaction-replays_example =
    create_transaction-replays surroundings surroundings lunch lunch b'k' (codes "1") (false, 8)
      desk refl refl refl refl booked_once
