-- ===== src/Ledger/Effects.antt =====
-- Booking and reversing a transaction on the linked accounts (server/app/services/transaction/
-- ledger_service.py). Row locks order the writers; logging is left out. The session does not flush
-- by itself, and a locked read takes the account from the database again. `Accounts` is what the
-- database holds when a method of the service is called: the callers flush after each call, and
-- update_transaction_account, which calls twice, does so for different accounts. Within a call only
-- a transfer from an account to itself reads a row twice (`transfer_items`).
use finvo.Prelude.{
  ℕ, Bool, true, false, ◌&&◌, Option, none, some, List, [], ◌∷◌, ltb, ◌==◌, if◌then◌else◌,
}
use finvo.Prelude.Int.{ℤ, ◌-ℤ◌}
use finvo.Prelude.Text.{Text, or_text}
use finvo.Prelude.Exec.{ok, pure, raise, or_raise, modify, ◌>>=◌, ◌>>◌}
use finvo.Ledger.Model.{
  expense, income, transfer, other_type, FinancialAccount, Transaction, Rates,
  exchange_rate_unavailable, Booking, Sign, plus, minus, times, signed, put, moved,
}
use finvo.Ledger.Convert.{convert_snapshot_to_currency}

-- `_get_account`: the owned row with this key. Within one call no account is read after it was
-- changed, so that the stored row and the row of the session are the same here.
unfoldable pub get_account : ℕ → ℕ → Booking (Option FinancialAccount)
get_account account_id user_uuid accounts = (
  ok (elim (accounts account_id) [
    | none ↦ none
    | some a ↦ if a.user_uuid == user_uuid then some a else none
  ]),
  accounts,
)

-- `account.currency_code or user_base_currency`
abbrev pub account_currency : FinancialAccount → Text → Text
account_currency a user_base = or_text (some a.currency_code) user_base

-- `convert_snapshot_amount` passes no stored rate. The error is the caller's to raise.
unfoldable pub convert_snapshot_amount : Rates → ℤ → ℤ → Text → Text → Text → Bool → Option ℤ
convert_snapshot_amount rates amount_original amount_base tx_currency target user_base allow_live =
    convert_snapshot_to_currency rates amount_original amount_base (some tx_currency) target
      user_base none allow_live

-- The end of `apply_account_balance_effect`: without an amount it raises, or in rollback mode skips.
abbrev pub book : ℕ → FinancialAccount → Sign → Bool → Option ℤ → Booking (Unit {0})
book account_id account s true none = raise exchange_rate_unavailable
book account_id account s false none = pure tt
book account_id account s allow_live (some effect) =
    modify (put account_id (moved account (signed s effect)))

abbrev pub book_found :
    Rates → Transaction → ℕ → Text → Sign → Bool → Option FinancialAccount → Booking (Unit {0})
book_found rates tx account_id user_base s allow_live none = pure tt
book_found rates tx account_id user_base s allow_live (some account) =
    book account_id account s allow_live (
      convert_snapshot_amount rates tx.amount_original tx.amount tx.currency
        (account_currency account user_base) user_base allow_live)

unfoldable pub apply_account_balance_effect :
    Rates → Transaction → Option ℕ → ℕ → Text → Sign → Sign → Bool → Booking (Unit {0})
unfolding get_account
apply_account_balance_effect rates tx none user_uuid user_base sign direction allow_live = pure tt
apply_account_balance_effect rates tx (some account_id) user_uuid user_base sign direction
      allow_live =
    do
      found ← get_account account_id user_uuid
      book_found rates tx account_id user_base (times sign direction) allow_live found

-- The accounts of a transfer with their directions, in the order of their keys if rows are locked.
-- A locked transfer from an account to itself moves the account by its second item only: the read
-- for that item drops the change by the first, which is not flushed. The two items raise for the
-- same reasons, so the first is left out here.
unfoldable pub transfer_items : Bool → Option ℕ → Option ℕ → List (ℕ × Sign)
transfer_items for_update none none = []
transfer_items for_update (some a) none = (a, minus) ∷ []
transfer_items for_update none (some b) = (b, plus) ∷ []
transfer_items for_update (some a) (some b) =
    if a == b && for_update
    then (b, plus) ∷ []
    else if for_update && ltb b a
    then (b, plus) ∷ (a, minus) ∷ []
    else (a, minus) ∷ (b, plus) ∷ []

-- `for acc_id, direction in transfer_items: ...`
unfoldable pub each_item : (ℕ → Sign → Booking (Unit {0})) → List (ℕ × Sign) → Booking (Unit {0})
each_item f [] = pure tt
each_item f ((k, direction) ∷ rest) = f k direction >> each_item f rest

-- `user_base` is what `get_user_base_currency` returns.
unfoldable pub apply_transaction_balance_effect :
    Rates → Text → Transaction → ℕ → Sign → Option ℕ → Option ℕ → Bool → Bool → Booking (Unit {0})
unfolding transfer_items each_item
apply_transaction_balance_effect rates user_base tx user_uuid sign source target for_update
      allow_live =
    elim tx.tx_type [
      | expense ↦
          apply_account_balance_effect rates tx source user_uuid user_base sign minus allow_live
      | income ↦
          apply_account_balance_effect rates tx target user_uuid user_base sign plus allow_live
      | transfer ↦
          each_item
            (λ k direction.
              apply_account_balance_effect rates tx (some k) user_uuid user_base sign direction
                allow_live)
            (transfer_items for_update source target)
      | other_type _ ↦ pure tt
    ]

-- `adjust` of `apply_balance_diff`, once the account is found: both conversions may raise
abbrev pub adjust_found :
    Rates
    → Transaction
    → ℤ
    → ℤ
    → Text
    → Text
    → ℕ
    → Sign
    → Option FinancialAccount
    → Booking (Unit {0})
adjust_found rates tx old_original old_base old_currency user_base k direction none = pure tt
adjust_found rates tx old_original old_base old_currency user_base k direction (some account) = do
  old_effect ←
      or_raise
        (convert_snapshot_amount rates old_original old_base old_currency
          (account_currency account user_base) user_base true)
        exchange_rate_unavailable
  new_effect ←
      or_raise
        (convert_snapshot_amount rates tx.amount_original tx.amount tx.currency
          (account_currency account user_base) user_base true)
        exchange_rate_unavailable
  modify (put k (moved account (signed direction (new_effect -ℤ old_effect))))

unfoldable pub adjust :
    Rates → Transaction → ℤ → ℤ → Text → ℕ → Text → Option ℕ → Sign → Booking (Unit {0})
unfolding get_account
adjust rates tx old_original old_base old_currency user_uuid user_base none direction = pure tt
adjust rates tx old_original old_base old_currency user_uuid user_base (some k) direction = do
  found ← get_account k user_uuid
  adjust_found rates tx old_original old_base old_currency user_base k direction found

unfoldable pub apply_balance_diff :
    Rates → Text → Transaction → ℕ → ℤ → ℤ → Text → Booking (Unit {0})
unfolding transfer_items each_item
apply_balance_diff rates user_base tx user_uuid old_original old_base old_currency =
    elim tx.tx_type [
      | expense ↦
          adjust rates tx old_original old_base old_currency user_uuid user_base
            tx.source_account_id minus
      | income ↦
          adjust rates tx old_original old_base old_currency user_uuid user_base
            tx.target_account_id plus
      | transfer ↦
          each_item
            (λ k direction.
              adjust rates tx old_original old_base old_currency user_uuid user_base (some k)
                direction)
            (transfer_items true tx.source_account_id tx.target_account_id)
      | other_type _ ↦ pure tt
    ]
