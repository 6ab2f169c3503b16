-- ===== src/Ledger/Laws/Items.antt =====
-- A transaction books one item for each account that it moves. The bookings of a list of items,
-- pointwise.
use finvo.Prelude.{
  Bool, Bool-cases, List, Option, Option-cases, [], arith, false, if◌then◌else◌, inl, inr, is_none,
  none, refl, some, ℕ, ◌&&◌, ◌==◌, ◌∷◌, ◌≡◌,
}
use finvo.Prelude.Int.{ℤ}
use finvo.Prelude.Text.{Text}
use finvo.Prelude.Exec.{Outcome, after, err, ok, pure, ◌>>◌}
use finvo.Ledger.Model.{
  Accounts, Booking, FinancialAccount, LedgerError, Rates, Sign, Transaction, TxType,
  exchange_rate_unavailable, expense, income, minus, other_type, plus, times, transfer,
}
use finvo.Ledger.Effects.{
  account_currency, apply_account_balance_effect, apply_transaction_balance_effect,
  convert_snapshot_amount, each_item, transfer_items,
}
use finvo.Ledger.Laws.Booking.{StepLaws}
use finvo.Ledger.Laws.Pointwise.{apply_account-lookup, delta, delta-moved, shifted}

-- the accounts that a transaction of a type moves, with their directions
abbrev pub items : Bool → TxType → Option ℕ → Option ℕ → List (ℕ × Sign)
items fu expense none target = []
items fu expense (some a) target = (a, minus) ∷ []
items fu income source none = []
items fu income source (some b) = (b, plus) ∷ []
items fu transfer source target = transfer_items fu source target
items fu (other_type _) source target = []

pub >>-pure : (m : Booking (Unit {0})) (accounts : Accounts) → (m >> pure tt) accounts ≡ m accounts
>>-pure m accounts = go (m accounts)
  where
    go : (r : Outcome LedgerError (Unit {0}) × Accounts) → after r.0 (λ _. pure tt) r.1 ≡ r
    go (ok tt, a) = refl
    go (err e, a) = refl

module _ (rates : Rates) (tx : Transaction) (uid : ℕ) (user_base : Text) (live : Bool) where
  abbrev pub step : Sign → ℕ → Sign → Accounts → Outcome LedgerError (Unit {0}) × Accounts
  step s k d = apply_account_balance_effect rates tx (some k) uid user_base s d live

  pub apply_transaction-items :
      (s : Sign) (source target : Option ℕ) (fu : Bool) (accounts : Accounts)
      → apply_transaction_balance_effect rates user_base tx uid s source target fu live accounts
        ≡ each_item (step s) (items fu tx.tx_type source target) accounts
  unfolding apply_transaction_balance_effect each_item apply_account_balance_effect
  apply_transaction-items s source target fu accounts = go tx.tx_type source target refl
    where
      go :
          (t : TxType) (source target : Option ℕ)
          → tx.tx_type ≡ t
          → apply_transaction_balance_effect rates user_base tx uid s source target fu live accounts
            ≡ each_item (step s) (items fu tx.tx_type source target) accounts
      go expense none target e = rw e refl
      go expense (some a) target e = rw (e, >>-pure (step s a minus) accounts) refl
      go income source none e = rw e refl
      go income source (some b) e = rw (e, >>-pure (step s b plus) accounts) refl
      go transfer source target e = rw e refl
      go (other_type _) source target e = rw e refl

  pub apply_transaction-steps :
      (s : Sign) (source target : Option ℕ) (fu : Bool)
      → apply_transaction_balance_effect rates user_base tx uid s source target fu live
        ≡ each_item (step s) (items fu tx.tx_type source target)
  apply_transaction-steps s source target fu =
      λ i accounts. apply_transaction-items s source target fu accounts i

  -- A booking raises if an owned account is found and no rate is, unless it reverses.
  abbrev pub fails : Option FinancialAccount → Bool
  fails none = false
  fails (some a) =
      a.user_uuid == uid
      && live
      && is_none (
          convert_snapshot_amount rates tx.amount_original tx.amount tx.currency
            (account_currency a user_base) user_base live)

  pub fails-shifted :
      (d : FinancialAccount → ℤ) (o : Option FinancialAccount) → fails (shifted d o) ≡ fails o
  fails-shifted d none = refl
  fails-shifted d (some a) = refl

  pub step-status :
      (s d : Sign) (k : ℕ) (accounts : Accounts)
      → (step s k d accounts).0
        ≡ (if fails (accounts k) then err exchange_rate_unavailable else ok tt)
  unfolding apply_account_balance_effect
  step-status s d k accounts = elim (Option-cases (accounts k)) [
    | inl gone ↦ ground arith
    | inr (a, here) ↦ elim (Bool-cases (a.user_uuid == uid)) [
      | inl own ↦ ground arith
      | inr foreign ↦ ground arith
    ]
  ]

  abbrev pub amount_of : Sign → Sign → FinancialAccount → ℤ
  amount_of s d = delta rates tx uid user_base (times s d) live

  pub step-StepLaws : (s : Sign) → StepLaws (step s) (amount_of s) fails
  step-StepLaws s = record {
    status = λ d k accounts. step-status s d k accounts;
    lookup =
        λ d k accounts j e. apply_account-lookup rates tx k uid user_base s d live accounts j e;
    same_amount = λ d a x. delta-moved rates tx uid user_base (times s d) live a x;
    same_test = λ e o. fails-shifted e o;
  }
