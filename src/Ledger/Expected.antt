-- ===== src/Ledger/Expected.antt =====
-- The balance that the transactions imply (`ledger_effect_for_account`, `compute_expected_balance`
-- and `recompute_account_balance` of server/app/services/account_balance.py).
use finvo.Prelude.{
  ℕ, Bool, true, false, not, ◌&&◌, Option, none, some, List, [], ◌∷◌, ◌++◌, ◌==◌, if◌then◌else◌,
}
use finvo.Prelude.Int.{ℤ, pos, ◌+ℤ◌, neg}
use finvo.Prelude.Lists.{select}
use finvo.Prelude.Text.{Text, codes, upper, or_text}
use finvo.Ledger.Model.{
  TxType, expense, income, transfer, other_type, TxStatus, cleared, FinancialAccount, Transaction,
  Rates,
}
use finvo.Ledger.Convert.{convert_snapshot_to_currency}

-- `x == account.id` for an optional reference
abbrev pub refers : ℕ → Option ℕ → Bool
refers k none = false
refers k (some j) = j == k

-- PROJECT_DEFAULT_CURRENCY
abbrev pub default_currency : Text
default_currency = codes "CNY"

abbrev pub when : Bool → ℤ → ℤ
when b e = if b then e else pos 0

abbrev pub effect_of_type : TxType → Bool → Bool → ℤ → ℤ
effect_of_type expense from to amount = when from (neg amount)
effect_of_type income from to amount = when to amount
effect_of_type transfer from to amount = when from (neg amount) +ℤ when to amount
effect_of_type (other_type _) from to amount = pos 0

-- The signed effect on the account with the key `k`; `none` if the conversion raises.
unfoldable pub ledger_effect_for_account :
    Rates → Transaction → ℕ → FinancialAccount → Text → Bool → Option ℤ
ledger_effect_for_account rates tx k account user_base allow_live =
    let from = refers k tx.source_account_id in
    let to = refers k tx.target_account_id in
    if not from && not to
    then some (pos 0)
    else (elim (convert_snapshot_to_currency rates tx.amount_original tx.amount (some tx.currency)
        (upper (or_text (some account.currency_code) default_currency)) user_base tx.exchange_rate
        allow_live) [ none ↦ none | some amount ↦ some (effect_of_type tx.tx_type from to amount) ])

abbrev pub is_cleared : TxStatus → Bool
is_cleared cleared = true
is_cleared _ = false

-- the loop over the effects; `none` once a conversion has raised
unfoldable pub add_effects : Rates → ℕ → FinancialAccount → Text → ℤ → List Transaction → Option ℤ
add_effects rates k account user_base expected [] = some expected
add_effects rates k account user_base expected (tx ∷ rest) =
    elim (ledger_effect_for_account rates tx k account user_base true) [
      | none ↦ none
      | some e ↦ add_effects rates k account user_base (expected +ℤ e) rest
    ]

-- The cleared transactions from the account, then those to it. The table is an argument.
unfoldable pub compute_expected_balance :
    Rates → List Transaction → Text → ℕ → FinancialAccount → ℤ × Bool
unfolding add_effects
compute_expected_balance rates txs user_base k account =
    let source_txs = select (λ t. is_cleared t.status && refers k t.source_account_id) txs in
    let target_txs = select (λ t. is_cleared t.status && refers k t.target_account_id) txs in
    elim (add_effects rates k account user_base account.initial_balance
      (source_txs ++ target_txs)) [
        | none ↦ (account.current_balance, false)
        | some expected ↦ (expected, true)
      ]

-- The account that is stored; its balance is the result.
unfoldable pub recompute_account_balance :
    Rates → List Transaction → Text → ℕ → FinancialAccount → FinancialAccount
recompute_account_balance rates txs user_base k account =
    let (expected, known) = compute_expected_balance rates txs user_base k account in
    if known then record account { current_balance = expected } else account
