-- ===== src/Ledger/Laws/Transfer.antt =====
-- A transfer between two accounts of the same currency.
use finvo.Prelude.{
  ==_flip, ==_refl, Bool, Bool-cases, List, false, inl, inr, ltb, refl, some, true, ℕ, ◌&&◌, ◌==◌,
  ◌∙◌, ◌≡◌,
}
use finvo.Prelude.Int.{int_laws, neg, ℤ, ◌+ℤ◌}
use finvo.Prelude.Text.{Text}
use finvo.Prelude.Exec.{final, ok}
use finvo.Ledger.Laws.Items.{amount_of, step-StepLaws, apply_transaction-items, fails, step}
use finvo.Ledger.Model.{
  Accounts, FinancialAccount, Rates, Sign, Transaction, minus, moved, plus, transfer,
}
use finvo.Ledger.Effects.{
  account_currency, apply_transaction_balance_effect, convert_snapshot_amount, each_item,
  transfer_items,
}
use finvo.Ledger.Laws.Pointwise.{amount_moved-minus, delta, shifted}
use finvo.Ledger.Laws.Booking.{each_item-lookup, total}

module _ (rates : Rates) (tx : Transaction) (uid : ℕ) (user_base : Text)
    (is_transfer : tx.tx_type ≡ transfer) (s t : ℕ) (apart : (s == t) ≡ false) (for_update : Bool)
    (accounts : Accounts) (a b : FinancialAccount) (from : accounts s ≡ some a)
    (to : accounts t ≡ some b) (own : (a.user_uuid == uid) ≡ true)
    (own' : (b.user_uuid == uid) ≡ true) (currency : a.currency_code ≡ b.currency_code)
    (returned : (apply_transaction_balance_effect rates user_base tx uid plus
        (some s)
        (some t)
        for_update
        true
        accounts).0
      ≡ ok tt) where
  abbrev its : List (ℕ × Sign)
  its = transfer_items for_update (some s) (some t)

  as_items :
      apply_transaction_balance_effect rates user_base tx uid plus
        (some s)
        (some t)
        for_update
        true
        accounts
      ≡ each_item (step rates tx uid user_base true plus) its accounts
  as_items =
      apply_transaction-items rates tx uid user_base true plus (some s) (some t) for_update accounts
      ∙ (rw is_transfer refl)

  looked :
      (j : ℕ)
      → final
          (apply_transaction_balance_effect rates user_base tx uid plus
            (some s)
            (some t)
            for_update
            true
            accounts)
          j
        ≡ shifted (total (amount_of rates tx uid user_base true plus) its j) (accounts j)
  looked j =
      rw
        (
          as_items,
          each_item-lookup (step rates tx uid user_base true plus)
              (amount_of rates tx uid user_base true plus) (fails rates tx uid user_base true)
              (step-StepLaws rates tx uid user_base true plus) its accounts j
              (rw as_items at returned),
        )
        refl

  total-source :
      total (amount_of rates tx uid user_base true plus) its s a
      ≡ delta rates tx uid user_base minus true a
  unfolding transfer_items
  total-source = elim (Bool-cases (for_update && ltb t s)) [
    | inl swapped ↦ rw (apart, swapped, ==_refl s, ==_flip s t apart) (omega int_laws)
    | inr kept ↦ rw (apart, kept, ==_refl s, ==_flip s t apart) (omega int_laws)
  ]

  total-target :
      total (amount_of rates tx uid user_base true plus) its t b
      ≡ delta rates tx uid user_base plus true b
  unfolding transfer_items
  total-target = elim (Bool-cases (for_update && ltb t s)) [
    | inl swapped ↦ rw (apart, swapped, ==_refl t, apart) (omega int_laws)
    | inr kept ↦ rw (apart, kept, ==_refl t, apart) (omega int_laws)
  ]

  -- What leaves the source arrives at the target.
  opposite :
      delta rates tx uid user_base minus true a ≡ neg (delta rates tx uid user_base plus true b)
  unfolding delta
  opposite =
      rw (own, own', currency)
        (amount_moved-minus plus (
          convert_snapshot_amount rates tx.amount_original tx.amount tx.currency
            (account_currency b user_base) user_base true))

  -- A transfer between two different accounts of the user with the same currency, once booked, has
  -- moved one amount: the source has lost what the target has gained, so that the sum of the two
  -- balances is the sum before.
  apply_transaction_balance_effect-conserves :
      (x : ℤ) × (final
          (apply_transaction_balance_effect rates user_base tx uid plus
            (some s)
            (some t)
            for_update
            true
            accounts)
          s
        ≡ some (moved a (neg x)))
      × (final
            (apply_transaction_balance_effect rates user_base tx uid plus
              (some s)
              (some t)
              for_update
              true
              accounts)
            t
          ≡ some (moved b x))
      × ((moved a (neg x)).current_balance +ℤ (moved b x).current_balance
          ≡ a.current_balance +ℤ b.current_balance)
  apply_transaction_balance_effect-conserves = (
    delta rates tx uid user_base plus true b,
    rw (looked s, from, total-source, opposite) refl,
    rw (looked t, to, total-target) refl,
    omega int_laws,
  )
