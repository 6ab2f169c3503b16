-- ===== src/Ledger/Laws/Recomputed.antt =====
-- Booking a transaction and recomputing an account that it refers to.
use finvo.Prelude.{List, arith, false, not, refl, some, true, ℕ, ◌∷◌, ◌≡◌}
use finvo.Prelude.Int.{ℤ}
use finvo.Prelude.Text.{Text}
use finvo.Ledger.Expected.{
  compute_expected_balance, is_cleared, ledger_effect_for_account, recompute_account_balance,
  refers,
}
use finvo.Ledger.Laws.Expected.{expected-cleared, expected-not_cleared}
use finvo.Ledger.Model.{FinancialAccount, Rates, Transaction, cleared, moved}

module _ (rates : Rates) (tx : Transaction) (txs : List Transaction) (user_base : Text) (k : ℕ)
    (a : FinancialAccount) (e : ℤ)
    (known : compute_expected_balance rates txs user_base k a ≡ (a.current_balance, true)) where
  -- If the recomputed balance is the current one, and a cleared transaction that refers to the
  -- account either as source or as target, and has a known effect, is added to the table and its effect to the balance,
  -- then the recomputed balance is again the current one.
  compute_expected_balance-cleared :
      tx.status ≡ cleared
      → refers k tx.source_account_id ≡ not (refers k tx.target_account_id)
      → ledger_effect_for_account rates tx k a user_base true ≡ some e
      → compute_expected_balance rates (tx ∷ txs) user_base k (moved a e)
        ≡ ((moved a e).current_balance, true)
  compute_expected_balance-cleared clear once effect =
      expected-cleared rates k a user_base tx txs e a.current_balance (rw clear refl) (ground arith)
        (ground arith) effect known

  -- If the recomputed balance is the current one, and a transaction with any other status than
  -- CLEARED, CONFIRMED included, is added to the table and moves the account by any amount, then
  -- recomputation takes that amount back.
  pub recompute_account_balance-not_cleared :
      is_cleared tx.status ≡ false
      → recompute_account_balance rates (tx ∷ txs) user_base k (moved a e) ≡ a
  unfolding recompute_account_balance
  recompute_account_balance-not_cleared other =
      rw (expected-not_cleared rates k a user_base tx txs e a.current_balance other known) refl
