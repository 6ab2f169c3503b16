-- ===== src/Records/Operations.antt =====
-- The operations. Notifications, logs, time stamps and the fields that no balance depends on
-- (category, text, tags) are left out. `rates`, `user_base` and `to_base`, the conversion of an
-- amount to the user's base currency with its rate, stand for the exchange rate service and the
-- user's settings.
use finvo.Prelude.Int.{ℤ, pos, ltb_ℤ}
use finvo.Prelude.Text.{upper, or_text, Text}
use finvo.Prelude.{ℕ, Bool, true, false, not, Option, none, some, ◌==◌, if◌then◌else◌}
use finvo.Prelude.Exec.{or_raise, pure, gets, raise_if, modify, ◌>>=◌, ◌>>◌}
use finvo.Ledger.Effects.{
  apply_balance_diff, apply_account_balance_effect, apply_transaction_balance_effect,
}
use finvo.Ledger.Model.{
  Transaction, TxStatus, confirmed, Rates, Sign, plus, minus, FinancialAccount,
}
use finvo.Records.Store.{
  amount_not_positive, rate_unavailable, Entry, not_pending, invalid_account, account_link_closed,
  Operation, booked, set_entry, is_pending, is_income, get_mutable, get_owned_transaction,
}

abbrev pub with_status : TxStatus → Entry → Entry
with_status status entry = record entry { tx = record entry.tx { status = status } }

abbrev pub linked_account : Transaction → Option ℕ
linked_account tx = if is_income tx.tx_type then tx.target_account_id else tx.source_account_id

-- `_update_account_association`
unfoldable pub update_account_association : Option ℕ → Entry → Entry
update_account_association account_id entry = record entry {
  tx =
      if is_income entry.tx.tx_type
      then record entry.tx { target_account_id = account_id }
      else record entry.tx { source_account_id = account_id };
}

-- `1 if transaction.type == "INCOME" else -1`
abbrev pub direction_of : Transaction → Sign
direction_of tx = if is_income tx.tx_type then plus else minus

-- the owned row, as `get_financial_account` finds it
abbrev pub owned : ℕ → Option FinancialAccount → Bool
owned user_uuid none = false
owned user_uuid (some a) = a.user_uuid == user_uuid

-- the checks of a new association
unfoldable pub check_account : Option ℕ → ℕ → Operation (Unit {0})
check_account none user_uuid = pure tt
check_account (some k) user_uuid = do
  found ← gets (λ s. owned user_uuid (s.accounts k))
  raise_if (not found) invalid_account
  is_active ← gets (λ s. s.active k)
  raise_if (not is_active) account_link_closed

abbrev pub same_account : Option ℕ → Option ℕ → Bool
same_account none none = true
same_account (some a) (some b) = a == b
same_account _ _ = false

-- `to_base` gives the amount in the base currency and the rate, both rounded to the
-- last stored place; `none` if it raises.
abbrev pub with_amount : ℤ → ℤ → ℤ → Entry → Entry
with_amount original base rate entry = record entry {
  tx = record entry.tx { amount = base; amount_original = original; exchange_rate = some rate };
}

unfoldable pub skip_pending_transaction : ℕ → ℕ → Operation (Unit {0})
unfolding get_owned_transaction
skip_pending_transaction transaction_id user_uuid = do
  entry ← get_owned_transaction transaction_id user_uuid
  raise_if (not (is_pending entry.tx.status)) not_pending
  modify (set_entry transaction_id none)

module _ (rates : Rates) (user_base : Text) where
  -- the reversal in `delete_transaction`, which uses no live rates
  abbrev pub reverse_booked : Entry → ℕ → Operation (Unit {0})
  reverse_booked entry user_uuid =
      if is_pending entry.tx.status
      then pure tt
      else booked (
          apply_transaction_balance_effect rates user_base entry.tx user_uuid minus
            entry.tx.source_account_id entry.tx.target_account_id true false)

  unfoldable pub delete_transaction : ℕ → ℕ → Operation (Unit {0})
  unfolding get_mutable
  delete_transaction transaction_id user_uuid = do
    entry ← get_mutable transaction_id user_uuid
    reverse_booked entry user_uuid
    modify (set_entry transaction_id none)

  unfoldable pub confirm_pending_transaction : ℕ → ℕ → Operation (Unit {0})
  unfolding get_owned_transaction
  confirm_pending_transaction transaction_id user_uuid = do
    entry ← get_owned_transaction transaction_id user_uuid
    raise_if (not (is_pending entry.tx.status)) not_pending
    modify (set_entry transaction_id (some (with_status confirmed entry)))
    booked (
        apply_transaction_balance_effect rates user_base (with_status confirmed entry).tx user_uuid
          plus entry.tx.source_account_id entry.tx.target_account_id true true)

  -- `_rollback_old_account_balance` and `_apply_new_account_balance`
  abbrev pub rebook : Entry → Option ℕ → Option ℕ → ℕ → Operation (Unit {0})
  rebook entry old new user_uuid = do
    booked (
        apply_account_balance_effect rates entry.tx old user_uuid user_base minus
          (direction_of entry.tx) true)
    booked (
        apply_account_balance_effect rates entry.tx new user_uuid user_base plus
          (direction_of entry.tx) true)

  unfoldable pub relink : ℕ → ℕ → Option ℕ → Entry → Operation (Unit {0})
  unfolding check_account update_account_association
  relink transaction_id user_uuid account_id entry = do
    check_account account_id user_uuid
    if is_pending entry.tx.status
        then pure tt
        else rebook entry (linked_account entry.tx) account_id user_uuid
    modify (set_entry transaction_id (some (update_account_association account_id entry)))

  unfoldable pub update_transaction_account : ℕ → ℕ → Option ℕ → Operation (Unit {0})
  unfolding get_mutable relink
  update_transaction_account transaction_id user_uuid account_id = do
    entry ← get_mutable transaction_id user_uuid
    if same_account (linked_account entry.tx) account_id
        then pure tt
        else relink transaction_id user_uuid account_id entry

  abbrev pub adjust_booked : Entry → Entry → ℕ → Operation (Unit {0})
  adjust_booked old new user_uuid =
      if is_pending new.tx.status
      then pure tt
      else booked (
          apply_balance_diff rates user_base new.tx user_uuid old.tx.amount_original old.tx.amount
            (upper (or_text (some old.tx.currency) user_base)))

  -- `update_transaction` with an amount
  unfoldable pub update_amount :
      (ℤ → Text → Text → Option (ℤ × ℤ)) → ℕ → ℕ → ℤ → Operation (Unit {0})
  unfolding get_mutable
  update_amount to_base transaction_id user_uuid amount = do
    entry ← get_mutable transaction_id user_uuid
    raise_if (not (ltb_ℤ (pos 0) amount)) amount_not_positive
    converted ←
        or_raise (to_base amount (upper (or_text (some entry.tx.currency) user_base)) user_base)
          rate_unavailable
    modify (set_entry transaction_id (some (with_amount amount converted.0 converted.1 entry)))
    adjust_booked entry (with_amount amount converted.0 converted.1 entry) user_uuid
