-- ===== src/Ledger/Tests.antt =====
-- Runs of the ledger on two accounts of one user.
use finvo.Prelude.{ℕ, ◌≡◌, refl, true, Option, none, some, [], ◌∷◌, ◌==◌, if◌then◌else◌}
use finvo.Prelude.Lists.{select}
use finvo.Prelude.Int.{ℤ, pos, negsuc}
use finvo.Prelude.Text.{Text, codes, upper, or_text, text_eq}
use finvo.Prelude.Exec.{ok, final, ◌>>◌}
use finvo.Ledger.Model.{
  TxType, expense, transfer, TxStatus, cleared, confirmed, FinancialAccount, Transaction, Rates,
  Accounts, plus, minus, moved,
}
use finvo.Ledger.Convert.{convert_snapshot_to_currency}
use finvo.Ledger.Expected.{add_effects, compute_expected_balance, recompute_account_balance}
use finvo.Ledger.Laws.Recomputed.{recompute_account_balance-not_cleared}
use finvo.Ledger.Effects.{
  convert_snapshot_amount, get_account, apply_account_balance_effect, each_item, transfer_items,
  apply_transaction_balance_effect, apply_balance_diff,
}
use finvo.Ledger.Laws.Booking.{SameBooking}
use finvo.Ledger.Laws.Reversal.{apply_transaction_balance_effect-reversed}
use finvo.Ledger.Laws.Diff.{with_amounts, apply_balance_diff-rebooks}

-- a division by 1 changes nothing, any other gives 1
abbrev sample_quot : ℤ → ℤ → ℤ
sample_quot a (pos n) = if n == 1 then a else pos 1
sample_quot a (negsuc n) = pos 1

abbrev rates : Rates
rates = record { live = λ from to x. some x; quot = sample_quot; prod = λ a b. a }

abbrev cny : Text
cny = codes "CNY"

abbrev wallet : FinancialAccount
wallet = record {
  user_uuid = 9;
  currency_code = cny;
  initial_balance = pos 1000;
  current_balance = pos 1000;
}

abbrev savings : FinancialAccount
savings = record {
  user_uuid = 9;
  currency_code = cny;
  initial_balance = pos 500;
  current_balance = pos 500;
}

abbrev accounts : Accounts
accounts k = if k == 1 then some wallet else if k == 2 then some savings else none

abbrev payment : TxType → TxStatus → Option ℕ → Option ℕ → Transaction
payment kind status source target = record {
  uuid = 7;
  user_uuid = 9;
  tx_type = kind;
  status = status;
  amount = pos 100;
  amount_original = pos 100;
  currency = cny;
  exchange_rate = none;
  source_account_id = source;
  target_account_id = target;
}

abbrev move_tx : Transaction
move_tx = payment transfer cleared (some 2) (some 1)

apply_transaction_balance_effect-reversed_example :
    let after = final (
      apply_transaction_balance_effect rates cny move_tx 9 plus
        (some 2)
        (some 1)
        true
        true
        accounts) in
    let back =
      apply_transaction_balance_effect rates cny move_tx 9 minus
        (some 2)
        (some 1)
        true
        true
        after in
    (back.0 ≡ ok tt) × ((j : ℕ) → final back j ≡ accounts j)
unfolding apply_transaction_balance_effect transfer_items each_item apply_account_balance_effect
    get_account convert_snapshot_amount convert_snapshot_to_currency upper or_text text_eq
apply_transaction_balance_effect-reversed_example =
    apply_transaction_balance_effect-reversed rates move_tx 9 cny true (some 2) (some 1) true
      accounts refl

apply_balance_diff-rebooks_example :
    SameBooking (apply_balance_diff rates cny move_tx 9 (pos 40) (pos 40) cny accounts) (
      (apply_transaction_balance_effect rates cny
            (with_amounts move_tx (pos 40) (pos 40) cny)
            9
            minus
            (some 2)
            (some 1)
            true
            true
          >> apply_transaction_balance_effect rates cny move_tx 9 plus (some 2) (some 1) true true)
        accounts)
apply_balance_diff-rebooks_example =
    apply_balance_diff-rebooks rates move_tx 9 cny (pos 40) (pos 40) cny accounts

abbrev spending : Transaction
spending = payment expense cleared (some 1) none

recompute_account_balance-not_cleared_example :
    recompute_account_balance rates
      (payment expense confirmed (some 1) none ∷ [])
      cny
      1
      (moved wallet (negsuc 99))
    ≡ wallet
unfolding compute_expected_balance select add_effects
recompute_account_balance-not_cleared_example =
    recompute_account_balance-not_cleared rates (payment expense confirmed (some 1) none) [] cny 1
      wallet (negsuc 99) refl refl
