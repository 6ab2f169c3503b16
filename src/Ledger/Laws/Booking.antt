-- ===== src/Ledger/Laws/Booking.antt =====
-- The run of a list of items, for any step that changes one row by an amount that does not depend on
-- a balance, and that raises by a test that does not depend on one.
use finvo.Prelude.{
  Bool, Bool-cases, List, Option, [], false, if◌then◌else◌, inl, inr, refl, ℕ, ◌==◌, ◌||◌, ◌∷◌, ◌≡◌,
}
use finvo.Prelude.Int.{pos, ℤ, ◌+ℤ◌}
use finvo.Prelude.Exec.{Outcome, err, final, ok, then-err, then-first, then-ok}
use finvo.Ledger.Model.{
  Accounts, Booking, FinancialAccount, LedgerError, Sign, exchange_rate_unavailable, moved,
}
use finvo.Ledger.Effects.{each_item}
use finvo.Ledger.Laws.Pointwise.{shifted, shifted-item, shifted-zero}

-- what two runs have in common: the outcome, and each account if they return
abbrev pub SameBooking :
    Outcome LedgerError (Unit {0}) × Accounts → Outcome LedgerError (Unit {0}) × Accounts → Type 0
SameBooking r r' = (r.0 ≡ r'.0) × (r'.0 ≡ ok tt → (j : ℕ) → final r j ≡ final r' j)

-- what the items add to the account with the key `j`
abbrev pub total : (Sign → FinancialAccount → ℤ) → List (ℕ × Sign) → ℕ → FinancialAccount → ℤ
total amount [] j a = pos 0
total amount ((k, d) ∷ rest) j a = (if k == j then amount d a else pos 0) +ℤ total amount rest j a

abbrev pub any_fails : (Option FinancialAccount → Bool) → List (ℕ × Sign) → Accounts → Bool
any_fails bad [] accounts = false
any_fails bad ((k, d) ∷ rest) accounts = bad (accounts k) || any_fails bad rest accounts

pub any_fails-ext :
    (bad : Option FinancialAccount → Bool) (its : List (ℕ × Sign)) (a b : Accounts)
    → ((j : ℕ) → bad (a j) ≡ bad (b j))
    → any_fails bad its a ≡ any_fails bad its b
any_fails-ext bad [] a b h = refl
any_fails-ext bad ((k, d) ∷ rest) a b h = rw (h k, any_fails-ext bad rest a b h) refl

-- What a step does: it raises by the test `bad` on the row, or else it adds `amount` to the row.
pub record StepLaws (f : ℕ → Sign → Booking (Unit {0})) (amount : Sign → FinancialAccount → ℤ)
    (bad : Option FinancialAccount → Bool) : Type 0 where
  pub status :
      (d : Sign) (k : ℕ) (accounts : Accounts)
      → (f k d accounts).0 ≡ (if bad (accounts k) then err exchange_rate_unavailable else ok tt)
  pub lookup :
      (d : Sign) (k : ℕ) (accounts : Accounts) (j : ℕ)
      → (f k d accounts).0 ≡ ok tt
      → final (f k d accounts) j ≡ (if k == j then shifted (amount d) (accounts j) else accounts j)
  pub same_amount : (d : Sign) (a : FinancialAccount) (x : ℤ) → amount d (moved a x) ≡ amount d a
  pub same_test :
      (e : FinancialAccount → ℤ) (o : Option FinancialAccount) → bad (shifted e o) ≡ bad o

module _ (f : ℕ → Sign → Booking (Unit {0})) (amount : Sign → FinancialAccount → ℤ)
    (bad : Option FinancialAccount → Bool) (laws : StepLaws f amount bad) where
  -- a step that returns leaves rows that fail as before
  step-fails :
      (d : Sign) (k j : ℕ) (accounts : Accounts)
      → (f k d accounts).0 ≡ ok tt
      → bad (final (f k d accounts) j) ≡ bad (accounts j)
  step-fails d k j accounts e = rw (laws.lookup d k accounts j e) (elim (Bool-cases (k == j)) [
    | inl same ↦ rw same (laws.same_test (amount d) (accounts j))
    | inr other ↦ rw other refl
  ])

  pub total-moved :
      (its : List (ℕ × Sign)) (j : ℕ) (a : FinancialAccount) (x : ℤ)
      → total amount its j (moved a x) ≡ total amount its j a
  total-moved [] j a x = refl
  total-moved ((k, d) ∷ rest) j a x = rw (laws.same_amount d a x, total-moved rest j a x) refl

  -- Whether a list of items is booked depends on the accounts only through the test.
  pub each_item-status :
      (its : List (ℕ × Sign)) (accounts : Accounts)
      → (each_item f its accounts).0
        ≡ (if any_fails bad its accounts then err exchange_rate_unavailable else ok tt)
  unfolding each_item
  each_item-status [] accounts = refl
  each_item-status ((k, d) ∷ rest) accounts =
      let status = laws.status d k accounts in
      elim (Bool-cases (bad (accounts k))) [
        | inl fails ↦ rw fails (
            then-err (f k d) (each_item f rest) accounts exchange_rate_unavailable
              (rw fails at status))
        | inr good ↦
            let returned : (f k d accounts).0 ≡ ok tt = rw good at status in
            rw
              (
                good,
                then-ok (f k d) (each_item f rest) accounts returned,
                each_item-status rest (final (f k d accounts)),
                any_fails-ext bad rest (final (f k d accounts)) accounts
                    (λ j. step-fails d k j accounts returned),
              )
              refl
      ]

  -- Once booked, each account has moved by the total of its items.
  pub each_item-lookup :
      (its : List (ℕ × Sign)) (accounts : Accounts) (j : ℕ)
      → (each_item f its accounts).0 ≡ ok tt
      → final (each_item f its accounts) j ≡ shifted (total amount its j) (accounts j)
  unfolding each_item
  each_item-lookup [] accounts j h = rw (shifted-zero (accounts j)) refl
  each_item-lookup ((k, d) ∷ rest) accounts j h =
      let returned = then-first (f k d) (each_item f rest) accounts tt h in
      let whole = then-ok (f k d) (each_item f rest) accounts returned in
      rw
        (
          whole,
          each_item-lookup rest (final (f k d accounts)) j (rw whole at h),
          laws.lookup d k accounts j returned,
        )
        (shifted-item (k == j) (amount d) (total amount rest j) (accounts j) (total-moved rest j))

  -- No item fails on rows that a list of items has moved that would not fail before.
  pub any_fails-booked :
      (its their : List (ℕ × Sign)) (accounts : Accounts)
      → (each_item f its accounts).0 ≡ ok tt
      → any_fails bad their (final (each_item f its accounts)) ≡ any_fails bad their accounts
  any_fails-booked its their accounts h =
      any_fails-ext bad their (final (each_item f its accounts)) accounts (λ j.
        rw (each_item-lookup its accounts j h) (laws.same_test (total amount its j) (accounts j)))
