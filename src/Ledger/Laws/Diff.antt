-- ===== src/Ledger/Laws/Diff.antt =====
-- Editing a booked transaction (`apply_balance_diff`), against the reversal of the old amounts and
-- the booking of the new.
use finvo.Prelude.{
  Bool, Bool-cases, Option, Option-cases, arith, false, if◌then◌else◌, inl, inr, none, refl, some,
  true, ℕ, ◌==◌, ◌||◌, ◌≡◌,
}
use finvo.Prelude.Int.{int_laws, neg, pos, ℤ, ◌+ℤ◌, ◌-ℤ◌}
use finvo.Prelude.Text.{Text}
use finvo.Prelude.Exec.{err, final, ok, ◌>>◌}
use finvo.Ledger.Laws.Sum.{each_item-both}
use finvo.Ledger.Model.{
  Accounts, Booking, FinancialAccount, Rates, Sign, Transaction, TxType, exchange_rate_unavailable,
  expense, income, minus, other_type, plus, signed, times, transfer,
}
use finvo.Ledger.Effects.{
  account_currency, adjust, apply_balance_diff, apply_transaction_balance_effect,
  convert_snapshot_amount, each_item,
}
use finvo.Ledger.Laws.Pointwise.{delta, delta-moved, moved-zero, shifted}
use finvo.Ledger.Laws.Items.{
  apply_transaction-steps, >>-pure, amount_of, step-StepLaws, fails, fails-shifted, items, step,
}
use finvo.Ledger.Laws.Booking.{StepLaws, SameBooking}

abbrev pub with_amounts : Transaction → ℤ → ℤ → Text → Transaction
with_amounts tx original base currency = record tx {
  amount_original = original;
  amount = base;
  currency = currency;
}

module _ (rates : Rates) (tx : Transaction) (uid : ℕ) (user_base : Text) (original base : ℤ)
    (currency : Text) where
  old : Transaction
  old = with_amounts tx original base currency

  diff_step : ℕ → Sign → Booking (Unit {0})
  diff_step k d = adjust rates tx original base currency uid user_base (some k) d

  apply_balance_diff-items :
      (accounts : Accounts)
      → apply_balance_diff rates user_base tx uid original base currency accounts
        ≡ each_item diff_step
            (items true tx.tx_type tx.source_account_id tx.target_account_id)
            accounts
  unfolding apply_balance_diff each_item adjust diff_step
  apply_balance_diff-items accounts =
      go tx.tx_type tx.source_account_id tx.target_account_id refl refl refl
    where
      go :
          (t : TxType) (source target : Option ℕ)
          → tx.tx_type ≡ t
          → tx.source_account_id ≡ source
          → tx.target_account_id ≡ target
          → apply_balance_diff rates user_base tx uid original base currency accounts
            ≡ each_item diff_step
                (items true tx.tx_type tx.source_account_id tx.target_account_id)
                accounts
      go expense none target e f g = rw (e, f) refl
      go expense (some a) target e f g = rw (e, f, >>-pure (diff_step a minus) accounts) refl
      go income source none e f g = rw (e, g) refl
      go income source (some b) e f g = rw (e, g, >>-pure (diff_step b plus) accounts) refl
      go transfer source target e f g = rw e refl
      go (other_type _) source target e f g = rw e refl

  diff_amount : Sign → FinancialAccount → ℤ
  diff_amount d a =
      delta rates old uid user_base (times minus d) true a +ℤ delta rates tx uid user_base d true a

  diff_fails : Option FinancialAccount → Bool
  diff_fails o = fails rates old uid user_base true o || fails rates tx uid user_base true o

  adjust-status :
      (d : Sign) (k : ℕ) (accounts : Accounts)
      → (diff_step k d accounts).0
        ≡ (if diff_fails (accounts k) then err exchange_rate_unavailable else ok tt)
  unfolding adjust diff_step diff_fails old
  adjust-status d k accounts = elim (Option-cases (accounts k)) [
    | inl gone ↦ ground arith
    | inr (a, here) ↦ elim (Bool-cases (a.user_uuid == uid)) [
      | inl own ↦ ground arith
      | inr foreign ↦ ground arith
    ]
  ]

  -- the account that was found, with both amounts known
  adjust_amount :
      (d : Sign) (a : FinancialAccount) (o n : ℤ)
      → (a.user_uuid == uid) ≡ true
      → convert_snapshot_amount rates original base currency
          (account_currency a user_base)
          user_base
          true
        ≡ some o
      → convert_snapshot_amount rates tx.amount_original tx.amount tx.currency
          (account_currency a user_base)
          user_base
          true
        ≡ some n
      → diff_amount d a ≡ signed d (n -ℤ o)
  unfolding diff_amount delta old neg
  adjust_amount plus a o n own e f = rw (own, e, f) (omega int_laws)
  adjust_amount minus a o n own e f = rw (own, e, f) (omega int_laws)

  foreign_amount :
      (d : Sign) (a : FinancialAccount) → (a.user_uuid == uid) ≡ false → diff_amount d a ≡ pos 0
  unfolding diff_amount delta old
  foreign_amount d a foreign = rw foreign (omega int_laws)

  adjust-lookup :
      (d : Sign) (k : ℕ) (accounts : Accounts) (j : ℕ)
      → (diff_step k d accounts).0 ≡ ok tt
      → final (diff_step k d accounts) j
        ≡ (if k == j then shifted (diff_amount d) (accounts j) else accounts j)
  unfolding adjust diff_step
  adjust-lookup d k accounts j h = elim (Option-cases (accounts k)) [
    | inl gone ↦ ground arith
    | inr (a, here) ↦ elim (Bool-cases (a.user_uuid == uid)) [
      | inl own ↦
          elim (Option-cases (
            convert_snapshot_amount rates original base currency (account_currency a user_base)
              user_base true)) [
                | inl e ↦ ground arith
                | inr (o, e) ↦
                    elim (Option-cases (
                      convert_snapshot_amount rates tx.amount_original tx.amount tx.currency
                        (account_currency a user_base) user_base true)) [
                          | inl f ↦ ground arith
                          | inr (n, f) ↦ ground (arith, adjust_amount d a o n own e f)
                        ]
              ]
      | inr foreign ↦ ground (arith, foreign_amount d a foreign, moved-zero a)
    ]
  ]

  diff_step-StepLaws :
      StepLaws diff_step
        (λ d a.
          amount_of rates old uid user_base true minus d a
          +ℤ amount_of rates tx uid user_base true plus d a)
        (λ o. fails rates old uid user_base true o || fails rates tx uid user_base true o)
  unfolding diff_amount diff_fails old
  diff_step-StepLaws = record {
    status = adjust-status;
    lookup = adjust-lookup;
    same_amount = λ d a x.
        rw
          (
            delta-moved rates old uid user_base (times minus d) true a x,
            delta-moved rates tx uid user_base d true a x,
          )
          refl;
    same_test = λ e o.
        rw
          (
            fails-shifted rates old uid user_base true e o,
            fails-shifted rates tx uid user_base true e o,
          )
          refl;
  }

  -- Editing the amounts of a booked transaction does what reversing it with its old amounts and
  -- booking it with its new ones does, all with live rates and locked rows, where the session
  -- is flushed between the two: both return or both raise the same, and if they return, every account
  -- is the same.
  pub apply_balance_diff-rebooks :
      (accounts : Accounts)
      → SameBooking (apply_balance_diff rates user_base tx uid original base currency accounts) (
          (apply_transaction_balance_effect rates user_base
                (with_amounts tx original base currency)
                uid
                minus
                tx.source_account_id
                tx.target_account_id
                true
                true
              >> apply_transaction_balance_effect rates user_base tx uid plus tx.source_account_id
                  tx.target_account_id true true)
            accounts)
  unfolding old
  apply_balance_diff-rebooks accounts =
      let its = items true tx.tx_type tx.source_account_id tx.target_account_id in
      rw
        (
          apply_balance_diff-items accounts,
          apply_transaction-steps rates old uid user_base true minus tx.source_account_id
              tx.target_account_id true,
          apply_transaction-steps rates tx uid user_base true plus tx.source_account_id
              tx.target_account_id true,
        )
        (each_item-both diff_step (step rates old uid user_base true minus)
          (step rates tx uid user_base true plus) (amount_of rates old uid user_base true minus)
          (amount_of rates tx uid user_base true plus) (fails rates old uid user_base true)
          (fails rates tx uid user_base true) diff_step-StepLaws
          (step-StepLaws rates old uid user_base true minus)
          (step-StepLaws rates tx uid user_base true plus) its accounts)
