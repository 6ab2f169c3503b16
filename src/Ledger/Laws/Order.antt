-- ===== src/Ledger/Laws/Order.antt =====
-- The order of a transfer's two bookings: the row locks take the smaller key first.
use finvo.Prelude.{
  Bool, Bool-cases, List, Option, [], false, if◌then◌else◌, inl, inr, ltb, none, refl, some, true,
  ℕ, ◌==◌, ◌||◌, ◌∷◌, ◌≡◌,
}
use finvo.Prelude.Int.{int_laws, pos, ℤ, ◌+ℤ◌}
use finvo.Prelude.Text.{Text}
use finvo.Ledger.Model.{
  Booking, Accounts, FinancialAccount, Rates, Sign, Transaction, TxType, expense, income,
  other_type, transfer,
}
use finvo.Ledger.Effects.{apply_transaction_balance_effect, each_item, transfer_items}
use finvo.Ledger.Laws.Recompute.{is_same}
use finvo.Ledger.Laws.Items.{items, step, fails, amount_of, step-StepLaws, apply_transaction-items}
use finvo.Ledger.Laws.Booking.{
  SameBooking, StepLaws, total, any_fails, each_item-status, each_item-lookup,
}

swap : List (ℕ × Sign) → List (ℕ × Sign)
swap (x ∷ y ∷ []) = y ∷ x ∷ []
swap its = its

transfer_items-order :
    (source target : Option ℕ) (P : List (ℕ × Sign) → Type 0)
    → is_same source target ≡ false
    → P (transfer_items false source target)
    → P (swap (transfer_items false source target))
    → P (transfer_items true source target)
unfolding transfer_items swap
transfer_items-order none none P d h k = h
transfer_items-order (some a) none P d h k = h
transfer_items-order none (some b) P d h k = h
transfer_items-order (some a) (some b) P d h k = elim (Bool-cases (ltb b a)) [
  | inl less ↦ rw (d, less) (rw d at k)
  | inr more ↦ rw (d, more) (rw d at h)
]

or_swap : (a b c : Bool) → (a || (b || c)) ≡ (b || (a || c))
or_swap true true c = refl
or_swap true false c = refl
or_swap false true c = refl
or_swap false false c = refl

add_swap : (a b c : ℤ) → a +ℤ (b +ℤ c) ≡ b +ℤ (a +ℤ c)
add_swap a b c = omega int_laws

total-swap :
    (amount : Sign → FinancialAccount → ℤ) (its : List (ℕ × Sign)) (j : ℕ)
    → total amount (swap its) j ≡ total amount its j
unfolding swap
total-swap amount [] j = refl
total-swap amount (x ∷ []) j = refl
total-swap amount (x ∷ y ∷ z ∷ r) j = refl
total-swap amount ((k, d) ∷ (l, e) ∷ []) j = λ i a.
    add_swap (if l == j then amount e a else pos 0) (if k == j then amount d a else pos 0) (pos 0) i

any_fails-swap :
    (bad : Option FinancialAccount → Bool) (its : List (ℕ × Sign)) (accounts : Accounts)
    → any_fails bad (swap its) accounts ≡ any_fails bad its accounts
unfolding swap
any_fails-swap bad [] accounts = refl
any_fails-swap bad (x ∷ []) accounts = refl
any_fails-swap bad (x ∷ y ∷ z ∷ r) accounts = refl
any_fails-swap bad ((k, d) ∷ (l, e) ∷ []) accounts =
    or_swap (bad (accounts l)) (bad (accounts k)) false

module _ (f : ℕ → Sign → Booking (Unit {0})) (amount : Sign → FinancialAccount → ℤ)
    (bad : Option FinancialAccount → Bool) (laws : StepLaws f amount bad) where
  each_item-swap :
      (its : List (ℕ × Sign)) (accounts : Accounts)
      → SameBooking (each_item f (swap its) accounts) (each_item f its accounts)
  each_item-swap its accounts =
      let same : (each_item f (swap its) accounts).0 ≡ (each_item f its accounts).0 =
        rw
          (
            each_item-status f amount bad laws its accounts,
            each_item-status f amount bad laws (swap its) accounts,
            any_fails-swap bad its accounts,
          )
          refl in
      (
        same,
        λ h j.
            rw
              (
                each_item-lookup f amount bad laws its accounts j h,
                each_item-lookup f amount bad laws (swap its) accounts j (rw same h),
                total-swap amount its j,
              )
              refl,
      )

module _ (rates : Rates) (tx : Transaction) (uid : ℕ) (user_base : Text) (live : Bool) where
  -- Whether a transaction between different accounts is booked with locked rows, in the order of their keys, or without, in
  -- the order source and target, does not matter: both runs return or both raise the same, and if
  -- they return, every account is the same.
  apply_transaction_balance_effect-for_update :
      (s : Sign) (source target : Option ℕ) (accounts : Accounts)
      → is_same source target ≡ false
      → SameBooking
          (apply_transaction_balance_effect rates user_base tx uid s source target true live
            accounts)
          (apply_transaction_balance_effect rates user_base tx uid s source target false live
            accounts)
  apply_transaction_balance_effect-for_update s source target accounts distinct =
      rw
        (
          apply_transaction-items rates tx uid user_base live s source target true accounts,
          apply_transaction-items rates tx uid user_base live s source target false accounts,
        )
        (go tx.tx_type source target distinct)
    where
      go :
          (t : TxType) (source target : Option ℕ)
          → is_same source target ≡ false
          → SameBooking
              (each_item (step rates tx uid user_base live s) (items true t source target) accounts)
              (each_item
                (step rates tx uid user_base live s)
                (items false t source target)
                accounts)
      go expense none target d = (refl, λ h j. refl)
      go expense (some a) target d = (refl, λ h j. refl)
      go income source none d = (refl, λ h j. refl)
      go income source (some b) d = (refl, λ h j. refl)
      go (other_type _) source target d = (refl, λ h j. refl)
      go transfer source target d =
          transfer_items-order source target
            (λ its. SameBooking (each_item (step rates tx uid user_base live s) its accounts) (
              each_item (step rates tx uid user_base live s) (transfer_items false source target)
                accounts))
            d (refl, λ h j. refl)
            (each_item-swap (step rates tx uid user_base live s)
              (amount_of rates tx uid user_base live s) (fails rates tx uid user_base live)
              (step-StepLaws rates tx uid user_base live s) (transfer_items false source target)
              accounts)
