-- ===== src/Ledger/Laws/Pointwise.antt =====
-- A booking as a pointwise change of the accounts: each row moves by an amount that does not depend
-- on any balance.
use finvo.Prelude.{
  ap, ℕ, ◌≡◌, refl, Bool, true, false, Option, none, some, arith, ◌==◌, if◌then◌else◌, Bool-cases,
  Option-cases, inl, inr,
}
use finvo.Prelude.Int.{ℤ, pos, ◌+ℤ◌, neg, int_laws}
use finvo.Prelude.Text.{Text}
use finvo.Prelude.Exec.{ok, final}
use finvo.Ledger.Model.{
  FinancialAccount, Transaction, Rates, Accounts, Sign, plus, minus, times, signed, moved,
}
use finvo.Ledger.Effects.{
  book_found, account_currency, convert_snapshot_amount, apply_account_balance_effect,
}

abbrev pub amount_moved : Sign → Option ℤ → ℤ
amount_moved s none = pos 0
amount_moved s (some e) = signed s e

-- What a booking with the sign `s` adds to an account.
unfoldable pub delta : Rates → Transaction → ℕ → Text → Sign → Bool → FinancialAccount → ℤ
delta rates tx uid user_base s live a =
    if a.user_uuid == uid
    then amount_moved s (
        convert_snapshot_amount rates tx.amount_original tx.amount tx.currency
          (account_currency a user_base) user_base live)
    else pos 0

abbrev pub shifted : (FinancialAccount → ℤ) → Option FinancialAccount → Option FinancialAccount
shifted d none = none
shifted d (some a) = some (moved a (d a))

pub moved-zero : (a : FinancialAccount) → moved a (pos 0) ≡ a
moved-zero a = ap (λ (b : ℤ). record a { current_balance = b }) (omega int_laws)

-- the end of the booking, by what was found and what it is worth
book_found-lookup :
    (rates : Rates) (tx : Transaction) (k uid : ℕ) (user_base : Text) (s : Sign) (live : Bool)
    (accounts : Accounts) (a : FinancialAccount) (j : ℕ)
    → accounts k ≡ some a
    → a.user_uuid ≡ uid
    → (book_found rates tx k user_base s live (some a) accounts).0 ≡ ok tt
    → final (book_found rates tx k user_base s live (some a) accounts) j
      ≡ (if k == j then shifted (delta rates tx uid user_base s live) (accounts j) else accounts j)
unfolding delta
book_found-lookup rates tx k uid user_base s live accounts a j here own e =
    ground (arith, moved-zero a)

pub apply_account-lookup :
    (rates : Rates) (tx : Transaction) (k uid : ℕ) (user_base : Text) (s d : Sign) (live : Bool)
    (accounts : Accounts) (j : ℕ)
    → (apply_account_balance_effect rates tx (some k) uid user_base s d live accounts).0 ≡ ok tt
    → final (apply_account_balance_effect rates tx (some k) uid user_base s d live accounts) j ≡ (
        if k == j
        then shifted (delta rates tx uid user_base (times s d) live) (accounts j)
        else accounts j)
unfolding apply_account_balance_effect delta
apply_account-lookup rates tx k uid user_base s d live accounts j e =
    elim (Option-cases (accounts k)) [
      | inl gone ↦ ground (arith)
      | inr (a, here) ↦ elim (Bool-cases (a.user_uuid == uid)) [
        | inl own ↦
            ground (arith, book_found-lookup rates tx k uid user_base (times s d) live accounts a j)
        | inr foreign ↦ ground (arith, moved-zero a)
      ]
    ]

pub amount_moved-minus :
    (d : Sign) (o : Option ℤ) → amount_moved (times minus d) o ≡ neg (amount_moved d o)
unfolding neg
amount_moved-minus plus none = refl
amount_moved-minus minus none = refl
amount_moved-minus plus (some e) = refl
amount_moved-minus minus (some e) = ground arith

-- the reversed sign moves an account back
pub delta-minus :
    (rates : Rates) (tx : Transaction) (uid : ℕ) (user_base : Text) (d : Sign) (live : Bool)
    (a : FinancialAccount)
    → delta rates tx uid user_base (times minus d) live a
      ≡ neg (delta rates tx uid user_base d live a)
unfolding delta neg
delta-minus rates tx uid user_base d live a = elim (Bool-cases (a.user_uuid == uid)) [
  | inl own ↦ rw own (
      amount_moved-minus d (
        convert_snapshot_amount rates tx.amount_original tx.amount tx.currency
          (account_currency a user_base) user_base live))
  | inr foreign ↦ rw foreign
]

-- A shift by an amount that a shift does not change composes with it.
pub delta-moved :
    (rates : Rates) (tx : Transaction) (uid : ℕ) (user_base : Text) (s : Sign) (live : Bool)
    (a : FinancialAccount) (e : ℤ)
    → delta rates tx uid user_base s live (moved a e) ≡ delta rates tx uid user_base s live a
unfolding delta
delta-moved rates tx uid user_base s live a e = refl

pub shifted-shifted :
    (d e : FinancialAccount → ℤ) (o : Option FinancialAccount)
    → ((a : FinancialAccount) (x : ℤ) → e (moved a x) ≡ e a)
    → shifted e (shifted d o) ≡ shifted (λ a. d a +ℤ e a) o
shifted-shifted d e none h = refl
shifted-shifted d e (some a) h =
    rw h (ap (λ (b : ℤ). some (record a { current_balance = b })) (omega int_laws))

pub shifted-zero : (o : Option FinancialAccount) → shifted (λ _. pos 0) o ≡ o
shifted-zero none = refl
shifted-zero (some a) = ap (λ (b : FinancialAccount). some b) (moved-zero a)

pub shifted-zero_add :
    (e : FinancialAccount → ℤ) (o : Option FinancialAccount)
    → shifted (λ a. pos 0 +ℤ e a) o ≡ shifted e o
shifted-zero_add e none = refl
shifted-zero_add e (some a) =
    ap (λ (b : ℤ). some (record a { current_balance = a.current_balance +ℤ b })) (omega int_laws)

-- one more item, booked before the others
pub shifted-item :
    (b : Bool) (d e : FinancialAccount → ℤ) (o : Option FinancialAccount)
    → ((a : FinancialAccount) (x : ℤ) → e (moved a x) ≡ e a)
    → shifted e (if b then shifted d o else o) ≡ shifted (λ a. (if b then d a else pos 0) +ℤ e a) o
shifted-item true d e o h = shifted-shifted d e o h
shifted-item false d e o h = rw (shifted-zero_add e o) refl

-- a shift that is undone
pub shifted-back :
    (d e : FinancialAccount → ℤ) (o : Option FinancialAccount)
    → ((a : FinancialAccount) (x : ℤ) → e (moved a x) ≡ neg (d a))
    → shifted e (shifted d o) ≡ o
shifted-back d e none h = refl
shifted-back d e (some a) h =
    rw h (ap (λ (b : ℤ). some (record a { current_balance = b })) (omega int_laws))
