-- ===== src/Ledger/Laws/Reversal.antt =====
-- The reversal of a booked transaction, and the order of a transfer's two bookings.
use finvo.Prelude.{
  Bool, Bool-cases, List, Option, [], arith, false, inl, inr, none, refl, some, true, ℕ, ◌==◌, ◌∙◌,
  ◌∷◌, ◌≡◌,
}
use finvo.Prelude.Int.{int_laws, neg, ℤ}
use finvo.Prelude.Text.{Text}
use finvo.Prelude.Exec.{final, ok}
use finvo.Ledger.Model.{
  Accounts, Booking, FinancialAccount, Rates, Sign, Transaction, minus, plus, times,
}
use finvo.Ledger.Effects.{
  account_currency, apply_transaction_balance_effect, convert_snapshot_amount, each_item,
}
use finvo.Ledger.Laws.Pointwise.{amount_moved-minus, delta, delta-minus, shifted-back}
use finvo.Ledger.Laws.Items.{amount_of, step-StepLaws, apply_transaction-items, fails, items, step}
use finvo.Ledger.Laws.Booking.{
  StepLaws, any_fails, any_fails-booked, each_item-lookup, each_item-status, total, total-moved,
}

-- Two steps of which the second takes back what the first adds, on the same list of items.
module _ (f g : ℕ → Sign → Booking (Unit {0})) (amount back : Sign → FinancialAccount → ℤ)
    (bad back_bad : Option FinancialAccount → Bool) (f_laws : StepLaws f amount bad)
    (g_laws : StepLaws g back back_bad)
    (weaker : (o : Option FinancialAccount) → bad o ≡ false → back_bad o ≡ false)
    (back-amount : (d : Sign) (a : FinancialAccount) → back d a ≡ neg (amount d a)) where
  total-neg :
      (its : List (ℕ × Sign)) (j : ℕ) (a : FinancialAccount)
      → total back its j a ≡ neg (total amount its j a)
  total-neg [] j a = omega int_laws
  total-neg ((k, d) ∷ rest) j a = elim (Bool-cases (k == j)) [
    | inl same ↦ rw (same, back-amount d a, total-neg rest j a) (omega int_laws)
    | inr other ↦ rw (other, total-neg rest j a) (omega int_laws)
  ]

  any_fails-weaker :
      (its : List (ℕ × Sign)) (accounts : Accounts)
      → any_fails bad its accounts ≡ false
      → any_fails back_bad its accounts ≡ false
  any_fails-weaker [] accounts h = refl
  any_fails-weaker ((k, d) ∷ rest) accounts h =
      ground (arith, weaker (accounts k), any_fails-weaker rest accounts)

  returned-fails :
      (its : List (ℕ × Sign)) (accounts : Accounts)
      → (each_item f its accounts).0 ≡ ok tt
      → any_fails bad its accounts ≡ false
  returned-fails its accounts h =
      let status = each_item-status f amount bad f_laws its accounts in ground arith

  pub each_item-reversed :
      (its : List (ℕ × Sign)) (accounts : Accounts)
      → (each_item f its accounts).0 ≡ ok tt
      → ((each_item g its (final (each_item f its accounts))).0 ≡ ok tt)
        × ((j : ℕ) → final (each_item g its (final (each_item f its accounts))) j ≡ accounts j)
  each_item-reversed its accounts h =
      let after = final (each_item f its accounts) in
      let none_fails : any_fails bad its after ≡ false =
        any_fails-booked f amount bad f_laws its its accounts h ∙ returned-fails its accounts h in
      let returns : (each_item g its after).0 ≡ ok tt =
        rw
          (each_item-status g back back_bad g_laws its after, any_fails-weaker its after none_fails)
          refl in
      (
        returns,
        λ j.
            rw
              (
                each_item-lookup g back back_bad g_laws its after j returns,
                each_item-lookup f amount bad f_laws its accounts j h,
              )
              (shifted-back (total amount its j) (total back its j) (accounts j)
                (λ a x. rw (total-moved g back back_bad g_laws its j a x) (total-neg its j a))),
      )

module _ (rates : Rates) (tx : Transaction) (uid : ℕ) (user_base : Text) (live : Bool) where
  -- If booking a transaction returned, then reversing it with the same rates, the same linked
  -- accounts and the same `allow_live_rate` returns, and every account has the row again that it
  -- had before the booking.
  pub apply_transaction_balance_effect-reversed :
      (source target : Option ℕ) (for_update : Bool) (accounts : Accounts)
      → (apply_transaction_balance_effect rates user_base tx uid plus source target for_update live
          accounts).0
        ≡ ok tt
      → let booked = final (
          apply_transaction_balance_effect rates user_base tx uid plus source target for_update live
            accounts) in
        let back =
          apply_transaction_balance_effect rates user_base tx uid minus source target for_update
            live booked in
        (back.0 ≡ ok tt) × ((j : ℕ) → final back j ≡ accounts j)
  apply_transaction_balance_effect-reversed source target for_update accounts h =
      let its = items for_update tx.tx_type source target in
      let as_items = λ (s : Sign) (before : Accounts).
        apply_transaction-items rates tx uid user_base live s source target for_update before in
      rw
        (
          as_items plus accounts,
          as_items minus (final (each_item (step rates tx uid user_base live plus) its accounts)),
        )
        (each_item-reversed (step rates tx uid user_base live plus)
          (step rates tx uid user_base live minus) (amount_of rates tx uid user_base live plus)
          (amount_of rates tx uid user_base live minus) (fails rates tx uid user_base live)
          (fails rates tx uid user_base live) (step-StepLaws rates tx uid user_base live plus)
          (step-StepLaws rates tx uid user_base live minus) (λ o e. e)
          (λ d a. delta-minus rates tx uid user_base d live a) its accounts
          (rw (as_items plus accounts) at h))

-- The reversal without live rates of a booking with them.
module _ (rates : Rates) (tx : Transaction) (uid : ℕ) (user_base : Text)
    (snapshot : (a : FinancialAccount)
      → convert_snapshot_amount rates tx.amount_original tx.amount tx.currency
          (account_currency a user_base)
          user_base
          false
        ≡ convert_snapshot_amount rates tx.amount_original tx.amount tx.currency
            (account_currency a user_base)
            user_base
            true) where
  delta-snapshot :
      (d : Sign) (a : FinancialAccount)
      → delta rates tx uid user_base (times minus d) false a
        ≡ neg (delta rates tx uid user_base d true a)
  unfolding delta
  delta-snapshot d a = elim (Bool-cases (a.user_uuid == uid)) [
    | inl own ↦
        rw (own, snapshot a)
          (amount_moved-minus d (
            convert_snapshot_amount rates tx.amount_original tx.amount tx.currency
              (account_currency a user_base) user_base true))
    | inr foreign ↦ rw foreign (omega int_laws)
  ]

  never_fails : (o : Option FinancialAccount) → fails rates tx uid user_base false o ≡ false
  never_fails none = refl
  never_fails (some a) = ground arith

  -- If no conversion for the transaction depends on a live rate, then reversing the booked
  -- transaction without live rates, as a deletion does, returns and restores every account.
  pub apply_transaction_balance_effect-deleted :
      (source target : Option ℕ) (accounts : Accounts)
      → (apply_transaction_balance_effect rates user_base tx uid plus source target true true
          accounts).0
        ≡ ok tt
      → let after = final (
          apply_transaction_balance_effect rates user_base tx uid plus source target true true
            accounts) in
        let back =
          apply_transaction_balance_effect rates user_base tx uid minus source target true false
            after in
        (back.0 ≡ ok tt) × ((j : ℕ) → final back j ≡ accounts j)
  apply_transaction_balance_effect-deleted source target accounts h =
      let its = items true tx.tx_type source target in
      rw
        (
          apply_transaction-items rates tx uid user_base true plus source target true accounts,
          apply_transaction-items rates tx uid user_base false minus source target true
              (final (each_item (step rates tx uid user_base true plus) its accounts)),
        )
        (each_item-reversed (step rates tx uid user_base true plus)
          (step rates tx uid user_base false minus) (amount_of rates tx uid user_base true plus)
          (amount_of rates tx uid user_base false minus) (fails rates tx uid user_base true)
          (fails rates tx uid user_base false) (step-StepLaws rates tx uid user_base true plus)
          (step-StepLaws rates tx uid user_base false minus) (λ o e. never_fails o) delta-snapshot
          its accounts
          (rw (apply_transaction-items rates tx uid user_base true plus source target true accounts)
            at h))
