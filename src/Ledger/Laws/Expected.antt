-- ===== src/Ledger/Laws/Expected.antt =====
-- The recomputed balance while transactions are booked.
use finvo.Prelude.{
  Bool-cases, List, Option-cases, [], arith, false, inl, inr, not, refl, some, true, ℕ, ◌&&◌, ◌++◌,
  ◌∷◌, ◌≡◌,
}
use finvo.Prelude.Int.{int_laws, ℤ, ◌+ℤ◌}
use finvo.Prelude.Text.{Text}
use finvo.Prelude.Lists.{select}
use finvo.Ledger.Expected.{
  add_effects, compute_expected_balance, is_cleared, ledger_effect_for_account, refers,
}
use finvo.Ledger.Model.{FinancialAccount, Rates, Transaction, moved}

module _ (rates : Rates) (k : ℕ) (a : FinancialAccount) (user_base : Text) where
  add_effects-shift :
      (e x y : ℤ) (txs : List Transaction)
      → add_effects rates k a user_base x txs ≡ some y
      → add_effects rates k a user_base (x +ℤ e) txs ≡ some (y +ℤ e)
  unfolding add_effects
  add_effects-shift e x y [] h = ground arith
  add_effects-shift e x y (tx ∷ rest) h =
      elim (Option-cases (ledger_effect_for_account rates tx k a user_base true)) [
        | inl unknown ↦ ground arith
        | inr (d, known) ↦
            let swapped : (x +ℤ d) +ℤ e ≡ (x +ℤ e) +ℤ d = omega int_laws in
            let ih = add_effects-shift e (x +ℤ d) y rest in ground arith
      ]

  -- one more transaction among those that are summed
  add_effects-insert :
      (tx : Transaction) (e : ℤ)
      → ledger_effect_for_account rates tx k a user_base true ≡ some e
      → (x y : ℤ) (l r : List Transaction) → add_effects rates k a user_base x (l ++ r) ≡ some y
      → add_effects rates k a user_base x (l ++ (tx ∷ r)) ≡ some (y +ℤ e)
  unfolding add_effects
  add_effects-insert tx e known x y [] r h = let shift = add_effects-shift e x y r h in ground arith
  add_effects-insert tx e known x y (t ∷ l) r h =
      elim (Option-cases (ledger_effect_for_account rates t k a user_base true)) [
        | inl unknown ↦ ground arith
        | inr (d, at_t) ↦ let ih = add_effects-insert tx e known (x +ℤ d) y l r in ground arith
      ]

  ledger_effect-moved :
      (b : ℤ) (tx : Transaction)
      → ledger_effect_for_account rates tx k (moved a b) user_base true
        ≡ ledger_effect_for_account rates tx k a user_base true
  unfolding ledger_effect_for_account
  ledger_effect-moved b tx = refl

  -- the sum does not depend on the current balance
  pub add_effects-moved :
      (b x : ℤ) (txs : List Transaction)
      → add_effects rates k (moved a b) user_base x txs ≡ add_effects rates k a user_base x txs
  unfolding add_effects
  add_effects-moved b x [] = refl
  add_effects-moved b x (tx ∷ rest) =
      let same = ledger_effect-moved b tx in
      elim (Option-cases (ledger_effect_for_account rates tx k a user_base true)) [
        | inl unknown ↦ ground arith
        | inr (d, known) ↦ let ih = add_effects-moved b (x +ℤ d) rest in ground arith
      ]

  -- A cleared transaction that refers to the account once counts in the recomputed balance.
  pub expected-cleared :
      (tx : Transaction) (txs : List Transaction) (e y : ℤ)
      → is_cleared tx.status ≡ true
      → (refers k tx.source_account_id && refers k tx.target_account_id) ≡ false
      → (not (refers k tx.source_account_id) && not (refers k tx.target_account_id)) ≡ false
      → ledger_effect_for_account rates tx k a user_base true ≡ some e
      → compute_expected_balance rates txs user_base k a ≡ (y, true)
      → compute_expected_balance rates (tx ∷ txs) user_base k (moved a e) ≡ (y +ℤ e, true)
  unfolding compute_expected_balance select
  expected-cleared tx txs e y clear once some_one known h =
      let S = select (λ t. is_cleared t.status && refers k t.source_account_id) txs in
      let T = select (λ t. is_cleared t.status && refers k t.target_account_id) txs in
      elim (Option-cases (add_effects rates k a user_base a.initial_balance (S ++ T))) [
        | inl unknown ↦ ground arith
        | inr (z, sum) ↦ elim (Bool-cases (refers k tx.source_account_id)) [
          | inl from ↦
              let more = add_effects-insert tx e known a.initial_balance z [] (S ++ T) sum in
              let same = add_effects-moved e a.initial_balance (tx ∷ (S ++ T)) in ground arith
          | inr not_from ↦
              let more = add_effects-insert tx e known a.initial_balance z S T sum in
              let same = add_effects-moved e a.initial_balance (S ++ (tx ∷ T)) in ground arith
        ]
      ]

  -- A transaction that is not cleared does not count.
  pub expected-not_cleared :
      (tx : Transaction) (txs : List Transaction) (e y : ℤ)
      → is_cleared tx.status ≡ false
      → compute_expected_balance rates txs user_base k a ≡ (y, true)
      → compute_expected_balance rates (tx ∷ txs) user_base k (moved a e) ≡ (y, true)
  unfolding compute_expected_balance select
  expected-not_cleared tx txs e y other h =
      let S = select (λ t. is_cleared t.status && refers k t.source_account_id) txs in
      let T = select (λ t. is_cleared t.status && refers k t.target_account_id) txs in
      let same = add_effects-moved e a.initial_balance (S ++ T) in
      elim (Option-cases (add_effects rates k a user_base a.initial_balance (S ++ T))) [
        | inl unknown ↦ ground arith
        | inr (z, sum) ↦ ground arith
      ]
