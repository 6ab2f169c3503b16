-- ===== src/Account/Tests.antt =====
-- Runs of the operations on three accounts of one user.
use finvo.Ledger.Effects.{convert_snapshot_amount, apply_account_balance_effect}
use finvo.Ledger.Convert.{convert_snapshot_to_currency}
use finvo.Prelude.Lists.{count, select}
use finvo.Prelude.{
  ℕ, ◌≡◌, refl, true, false, Option, none, some, List, [], ◌∷◌, ◌==◌, ◌⊎◌, if◌then◌else◌,
}
use finvo.Prelude.Int.{◌-ℤ◌, abs, neg, ℤ, pos, ◌+ℤ◌}
use finvo.Prelude.Lists.{count}
use finvo.Prelude.Text.{or_text, upper, text_eq, Text, codes}
use finvo.Prelude.Exec.{ok, final}
use finvo.Ledger.Model.{Rates, Transaction, transfer, cleared}
use finvo.Ledger.Expected.{ledger_effect_for_account, compute_expected_balance}
use finvo.Records.Creation.{Surroundings}
use finvo.Account.Model.{Account, AccountData, asset, active, is_closed, Store, set_account}
use finvo.Account.Lifecycle.{
  delete_financial_account, merge_financial_accounts, update_financial_account,
}
use finvo.Account.Closing.{writeoff, close_financial_account}
use finvo.Account.Laws.Merging.{rows}
use finvo.Account.Laws.Merged.{merge_financial_accounts-initial_lost}
use finvo.Account.Laws.Zeroed.{IsClosed, close_financial_account-zero}
use finvo.Account.Laws.Rows.{delete_financial_account-alone}
use finvo.Account.Laws.Edited.{update_financial_account-agrees}

abbrev rates : Rates
rates = record { live = λ from to x. none; quot = λ a b. a; prod = λ a b. a }

abbrev cny : Text
cny = codes "CNY"

abbrev account : ℕ → ℕ → Account
account initial current = record {
  row = record {
    user_uuid = 9;
    currency_code = cny;
    initial_balance = pos initial;
    current_balance = pos current;
  };
  name = codes "A";
  nature = asset;
  account_type = none;
  include_in_net_worth = true;
  include_in_cash_flow = false;
  status = active;
}

abbrev moved_30 : Transaction
moved_30 = record {
  uuid = 7;
  user_uuid = 9;
  tx_type = transfer;
  status = cleared;
  amount = pos 30;
  amount_original = pos 30;
  currency = cny;
  exchange_rate = none;
  source_account_id = some 1;
  target_account_id = some 2;
}

-- the first account has moved 30 to the second, the third is empty
abbrev store : Store
store = record {
  accounts = λ k.
      if k == 1
      then some (account 100 70)
      else if k == 2
      then some (account 50 80)
      else if k == 3
      then some (account 0 0)
      else none;
  transactions = record { tx = moved_30; is_system = false } ∷ [];
  rules = [];
}

agrees_1 :
    compute_expected_balance rates (rows store.transactions) cny 1 (account 100 70).row
    ≡ (pos 70, true)
unfolding compute_expected_balance select ledger_effect_for_account convert_snapshot_to_currency
    text_eq upper or_text ◌+ℤ◌ neg abs
agrees_1 = refl

agrees_2 :
    compute_expected_balance rates (rows store.transactions) cny 2 (account 50 80).row
    ≡ (pos 80, true)
unfolding compute_expected_balance select ledger_effect_for_account convert_snapshot_to_currency
    text_eq upper or_text ◌+ℤ◌ abs
agrees_2 = refl

merged : (merge_financial_accounts rates cny 9 1 2 store).0 ≡ ok tt
unfolding merge_financial_accounts text_eq upper or_text
merged = refl

merge_financial_accounts-initial_lost_example :
    let s' = final (merge_financial_accounts rates cny 9 1 2 store) in
    (c : Account) × (s'.accounts 2 ≡ some c)
    × (s'.accounts 1 ≡ none)
    × (c.row.current_balance +ℤ pos 100 ≡ pos 70 +ℤ pos 80)
unfolding count
merge_financial_accounts-initial_lost_example =
    merge_financial_accounts-initial_lost rates cny 9 1 2 store (account 100 70) (account 50 80)
      refl refl refl agrees_1 agrees_2 merged

abbrev site : Surroundings
site = record {
  rates = rates;
  user_base = λ u. cny;
  rate = λ from to. none;
  one = pos 1;
  quantize = λ a. a;
  new_uuid = 8;
  rival = none;
}

closed_off : (close_financial_account site 9 1 writeoff none store).0 ≡ ok (writeoff, some 8)
unfolding close_financial_account count abs upper or_text text_eq apply_account_balance_effect
    convert_snapshot_amount convert_snapshot_to_currency
closed_off = refl

close_financial_account-zero_example :
    IsClosed 1 (final (close_financial_account site 9 1 writeoff none store))
close_financial_account-zero_example =
    close_financial_account-zero site 9 1 writeoff none store (account 100 70) (writeoff, some 8)
      refl agrees_1 refl closed_off

deleted : (delete_financial_account 9 3 store).0 ≡ ok true
unfolding delete_financial_account count
deleted = refl

delete_financial_account-alone_example :
    (a : Account) × (store.accounts 3 ≡ some a)
    × ((a.row.user_uuid == 9) ≡ true)
    × (a.row.current_balance ≡ pos 0)
    × (final (delete_financial_account 9 3 store) ≡ set_account 3 none store)
delete_financial_account-alone_example = delete_financial_account-alone 9 3 store deleted

abbrev payload : Option ℕ → Option ℤ → AccountData
payload id initial = record {
  id = id;
  name = some (codes "B");
  nature = none;
  account_type = none;
  currency_code = none;
  initial_balance = initial;
  current_balance = none;
  include_in_net_worth = none;
  include_in_cash_flow = none;
  status = none;
}

abbrev raised : Account
raised = record (account 120 90) { name = codes "B" }

raised_1 : (update_financial_account 9 1 (payload none (some (pos 120))) store).0 ≡ ok (some raised)
unfolding update_financial_account ◌+ℤ◌ ◌-ℤ◌
raised_1 = refl

update_financial_account-agrees_example :
    let s' = final (update_financial_account 9 1 (payload none (some (pos 120))) store) in
    (s'.accounts 1 ≡ some raised)
    × (compute_expected_balance rates (rows s'.transactions) cny 1 raised.row ≡ (pos 90, true))
    × ((active ≡ active) ⊎ (is_closed active ≡ false))
update_financial_account-agrees_example =
    update_financial_account-agrees rates cny 9 1 (payload none (some (pos 120))) store
      (account 100 70) raised refl refl refl agrees_1 raised_1

abbrev items : List (ℕ × AccountData)
items = (5, payload (some 1) none) ∷ (6, payload none (some (pos 4))) ∷ []
