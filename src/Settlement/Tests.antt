-- ===== src/Settlement/Tests.antt =====
-- Settlements among two and three members.
use finvo.Prelude.Lists.{length}
use finvo.Prelude.{false, ℕ, ◌+◌, ◌*◌, ◌%◌, ◌≤◌, ◌≡◌, refl, none, some, List, [], ◌∷◌, arith}
use finvo.Prelude.Int.{pos, negsuc, neg, ◌+ℤ◌, ◌-ℤ◌}
use finvo.Prelude.Text.{Text, codes, upper, or_text, text_eq}
use finvo.Prelude.Exec.{ok}
use finvo.Prelude.Lists.{select}
use finvo.Space.Model.{SpaceMember, Session, member, accepted, SpaceTransaction}
use finvo.Space.Access.{verify_membership}
use finvo.Ledger.Model.{expense, cleared, Rates}
use finvo.Settlement.Balances.{
  tally, add_spend, elem, amount_in_base, Spend, Tally, bump, charge_others, split,
}
use finvo.Settlement.Payments.{
  get_settlement, settlement_of, settle, debtors, creditors, printed, settle_all, settle_debtor,
}
use finvo.Settlement.Laws.Paid.{paid_to, paid_by, share_of, payments_to, payments_by}
use finvo.Settlement.Laws.Assigned.{rows_of, AllUnder, RoundsWithin, settle-within_balances}

abbrev rates : Rates
rates = record { live = λ from to x. none; quot = λ a b. pos 50; prod = λ a b. a }

abbrev cny : Text
cny = codes "CNY"

abbrev dinner : Spend
dinner = record {
  tx_type = expense;
  status = cleared;
  is_system = false;
  amount = pos 100;
  amount_original = some (pos 100);
  currency = some cny;
}

abbrev links : List SpaceTransaction
links = record { space_id = 5; transaction_id = 70; added_by_user_uuid = 1 } ∷ []

abbrev members : List ℕ
members = 1 ∷ 2 ∷ []

abbrev after_dinner : Tally
after_dinner = record {
  balances = (1, pos 50) ∷ (2, negsuc 49) ∷ [];
  total_amount = pos 100;
  excluded_count = 0;
  excluded_amount = pos 0;
}

-- up to an even number
abbrev even : ℕ → ℕ
even n = n + n % 2

even-RoundsWithin : RoundsWithin even 1 40000
even-RoundsWithin n h = (omega arith, omega arith)

-- 200.00 among three, where three units are a cent
abbrev after_rent : Tally
after_rent = record {
  balances = (1, pos 40000) ∷ (2, negsuc 19999) ∷ (3, negsuc 19999) ∷ [];
  total_amount = pos 60000;
  excluded_count = 0;
  excluded_amount = pos 0;
}

-- 66.666... is printed as 66.67, twice.
rounded_up : paid_to 1 (settle even 3 cny after_rent).items ≡ 40002
unfolding settle_all settle_debtor debtors creditors printed paid_to select
rounded_up = refl

settle-within_balances_example :
    (2 * paid_to 1 (settle even 3 cny after_rent).items
      ≤ 2 * share_of 1 (creditors after_rent.balances)
        + (3 * payments_to 1 (settle even 3 cny after_rent).items
            + 2
              * (length (debtors after_rent.balances)
                  * (rows_of 1 (creditors after_rent.balances) * 1))))
    × (2 * paid_by 1 (settle even 3 cny after_rent).items
        ≤ 2 * share_of 1 (debtors after_rent.balances)
          + (3 * payments_by 1 (settle even 3 cny after_rent).items
              + 2
                * (rows_of 1 (debtors after_rent.balances)
                    * (length (creditors after_rent.balances) * 1))))
unfolding debtors creditors AllUnder select
settle-within_balances_example =
    settle-within_balances even 1 40000 even-RoundsWithin 1 3 cny after_rent (omega arith, tt)
      (omega arith, (omega arith, tt))

abbrev person : ℕ → SpaceMember
person u = record { space_id = 5; user_uuid = u; role = member; status = accepted }

abbrev session : Session
session = record { spaces = []; members = person 1 ∷ person 2 ∷ []; links = links; events = [] }

dinner_settled :
    get_settlement even rates 1 (λ k. none) (λ k. some dinner) 5 2 session
    ≡ ok (settle even 1 cny after_dinner)
unfolding get_settlement settlement_of verify_membership select tally add_spend elem amount_in_base
    text_eq upper or_text split charge_others bump neg ◌+ℤ◌ ◌-ℤ◌
dinner_settled = refl
