-- ===== src/Ledger/Convert.antt =====
-- The amount of a transaction in the currency of an account (`convert_snapshot_to_currency` of
-- server/app/services/account_balance.py, and its caller in ledger_service.py).
use finvo.Prelude.{Bool, not, ◌&&◌, Option, none, some, if◌then◌else◌}
use finvo.Prelude.Int.{ℤ, pos, ltb_ℤ, is_zero, abs}
use finvo.Prelude.Text.{Text, upper, or_text, text_eq}
use finvo.Ledger.Model.{Rates}

-- `a` if it has a value, else `b`
abbrev pub or_else : Option ℤ → Option ℤ → Option ℤ
or_else none b = b
or_else (some a) b = some a

-- the hop over a rate from the transaction's currency to the base, which is positive
abbrev pub over_rate : Rates → Bool → Bool → ℤ → ℤ → Option ℤ
over_rate rates tx_is_base target_is_base orig rate =
    if tx_is_base
    then some (rates.quot orig rate)
    else if target_is_base
    then some (rates.prod orig rate)
    else none

-- `if exchange_rate and exchange_rate > 0: ...`
abbrev pub stored_rate : Rates → Bool → Bool → ℤ → Option ℤ → Option ℤ
stored_rate rates tx_is_base target_is_base orig none = none
stored_rate rates tx_is_base target_is_base orig (some rate) =
    if ltb_ℤ (pos 0) rate then over_rate rates tx_is_base target_is_base orig rate else none

-- `if base_amt and orig and base_amt != 0: ...`
abbrev pub implicit_rate : Rates → Bool → Bool → ℤ → ℤ → Option ℤ
implicit_rate rates tx_is_base target_is_base orig base_amt =
    if not (is_zero base_amt) && not (is_zero orig)
    then (let rate = rates.quot base_amt orig in
        if ltb_ℤ (pos 0) rate then over_rate rates tx_is_base target_is_base orig rate else none)
    else none

-- `none` stands for the `ValueError` at the end.
unfoldable pub convert_snapshot_to_currency :
    Rates → ℤ → ℤ → Option Text → Text → Text → Option ℤ → Bool → Option ℤ
convert_snapshot_to_currency rates amount_original amount_base tx_currency target_currency
      user_base_currency exchange_rate allow_live_rate =
    let base = upper user_base_currency in
    let tx_cur = upper (or_text tx_currency base) in
    let target = upper target_currency in
    if text_eq target tx_cur
    then some (abs amount_original)
    else if text_eq target base
    then some (abs amount_base)
    else or_else (if allow_live_rate then rates.live tx_cur target (abs amount_original) else none)
        (or_else
          (stored_rate rates (text_eq tx_cur base) (text_eq target base) amount_original
            exchange_rate)
          (implicit_rate rates (text_eq tx_cur base) (text_eq target base) amount_original
            amount_base))

-- `convert_to_user_base` of server/app/utils/currency_utils.py, with the rate between two currencies
-- and the number 1.0
unfoldable pub convert_to_user_base :
    Rates → (Text → Text → Option ℤ) → ℤ → ℤ → Text → Text → Option (ℤ × ℤ)
convert_to_user_base rates rate one amount currency base =
    if text_eq (upper currency) (upper base)
    then some (amount, one)
    else if is_zero amount
    then some (pos 0, one)
    else elim (rate currency base) [ none ↦ none | some q ↦ some (rates.prod amount q, q) ]
