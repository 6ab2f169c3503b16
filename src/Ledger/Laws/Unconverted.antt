-- ===== src/Ledger/Laws/Unconverted.antt =====
-- The conversion of a base-currency transaction for an account in a third currency.
use finvo.Prelude.{Option, false, none, refl, some, true, ◌≡◌}
use finvo.Prelude.Int.{is_zero, ltb_ℤ, pos, ℤ}
use finvo.Prelude.Text.{Text, or_text, text_eq, upper}
use finvo.Ledger.Model.{Rates}
use finvo.Ledger.Convert.{convert_snapshot_to_currency}

-- A transaction in the user's base currency, with the same non-zero amount as original and in the
-- base, and no stored rate, is converted without live rates to an account in any other currency by
-- the rate 1: the amount comes back as it is, and no error is raised. `one` is the quotient of the
-- amount and itself, which is positive and by which a division of the amount changes nothing.
convert_snapshot_to_currency-unconverted :
    (rates : Rates) (amount one : ℤ) (currency : Option Text) (target base : Text)
    → is_zero amount ≡ false
    → rates.quot amount amount ≡ one
    → ltb_ℤ (pos 0) one ≡ true
    → rates.quot amount one ≡ amount
    → text_eq (upper (or_text currency (upper base))) (upper base) ≡ true
    → text_eq (upper target) (upper (or_text currency (upper base))) ≡ false
    → text_eq (upper target) (upper base) ≡ false
    → convert_snapshot_to_currency rates amount amount currency target base none false ≡ some amount
unfolding convert_snapshot_to_currency
convert_snapshot_to_currency-unconverted rates amount one currency target base z q p d b t u =
    rw (t, u, b, z, q, p, d) refl
