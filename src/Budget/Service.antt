-- ===== src/Budget/Service.antt =====
-- server/app/services/budget_service.py: the changes of a budget. Names and logs are left out.
use finvo.Prelude.{
  List, not, ℕ, Bool, true, false, ◌&&◌, Option, none, some, [], ◌∷◌, ◌==◌, if◌then◌else◌,
}
use finvo.Prelude.Int.{pos, ◌-ℤ◌, leb_ℤ, ℤ, ◌+ℤ◌}
use finvo.Prelude.Lists.{select, update_where, delete_where}
use finvo.Prelude.Text.{Text, text_eq, upper}
use finvo.Prelude.Exec.{ok, pure, gets, modify, or_raise, ◌>>=◌, ◌>>◌}
use finvo.Budget.Store.{
  Budget, BudgetPeriod, BudgetStatus, World, Session, rate_unavailable, Operation,
  scalar_one_or_none, has_id, has_key, write_budget,
}
use finvo.Budget.Spending.{update_period_spent_amount}
use finvo.Budget.Periods.{current_period, get_or_create_current_period}

unfoldable pub get_budget : ℕ → ℕ → Operation (Option Budget)
get_budget budget_id user_uuid = do
  rows ← gets (λ s. select (λ b. b.id == budget_id && b.owner_uuid == user_uuid) s.budgets)
  scalar_one_or_none rows

-- `a or b` on texts
abbrev text_or : Text → Text → Text
text_or [] b = b
text_or (c ∷ a) b = c ∷ a

-- `_normalize_budget_currency`
unfoldable pub normalize_budget_currency : World → ℕ → ℤ → Text → Operation (ℤ × Text)
normalize_budget_currency w user_uuid amount currency_code =
    let base = w.base_currency user_uuid in
    if text_eq (upper (text_or currency_code base)) (upper base) then pure (amount, base) else (do
      converted ← or_raise (w.convert amount currency_code base) rate_unavailable
      pure (converted, base))

-- `BudgetUpdateRequest`, less the name
pub record BudgetUpdateRequest : Type 0 where
  pub amount : Option ℤ
  pub rollover_enabled : Option Bool
  pub status : Option BudgetStatus
  pub period_anchor_day : Option ℕ

-- `if x is not None: ...`
abbrev pub when_given : {A : Type 0} → Option A → (A → Operation (Unit {0})) → Operation (Unit {0})
when_given none f = pure tt
when_given (some a) f = f a

-- the part of `update_budget` on the amount, and the target of the current period
unfoldable pub change_amount : World → Budget → ℤ → Operation (Unit {0})
unfolding normalize_budget_currency current_period
change_amount w b requested = do
  normalized ← normalize_budget_currency w b.owner_uuid requested b.currency_code
  write_budget b.id (λ x. record x { amount = normalized.0; currency_code = normalized.1 })
  current ← current_period w b
  when_given current (λ p s. (
    ok tt,
    record s {
      periods =
          update_where (has_key p.budget_id p.period_start)
            (λ x. record x { adjusted_target = normalized.0 +ℤ x.rollover_in }) s.periods;
    },
  ))

-- false where the budget is not found
unfoldable pub update_budget : World → ℕ → ℕ → BudgetUpdateRequest → Operation Bool
unfolding get_budget change_amount
update_budget w budget_id user_uuid request = do
  found ← get_budget budget_id user_uuid
  elim found [
    | none ↦ pure false
    | some b ↦ (do
      when_given request.amount (change_amount w b)
      when_given request.rollover_enabled
          (λ v. write_budget b.id (λ x. record x { rollover_enabled = v }))
      when_given request.status (λ v. write_budget b.id (λ x. record x { status = v }))
      when_given request.period_anchor_day
          (λ v. write_budget b.id (λ x. record x { period_anchor_day = v }))
      pure true)
  ]

-- The deletion of a budget takes its periods with it (`ondelete="CASCADE"`).
unfoldable pub delete_budget : ℕ → ℕ → Operation Bool
unfolding get_budget
delete_budget budget_id user_uuid = do
  found ← get_budget budget_id user_uuid
  elim found [
    | none ↦ pure false
    | some b ↦ (do
      modify (λ s. record s {
        budgets = delete_where (has_id b.id) s.budgets;
        periods = delete_where (λ p. p.budget_id == b.id) s.periods;
      })
      pure true)
  ]

pub data RebalanceStatus : Type 0 where
  success invalid_amount currency_mismatch not_found insufficient_funds : RebalanceStatus

-- the objects that a call holds, as the session has them after an UPDATE statement
abbrev pub reload : Budget → Session → Budget
reload b s = elim (select (has_id b.id) s.budgets) [ [] ↦ b | x ∷ rest ↦ x ]

abbrev pub reload_period : BudgetPeriod → Session → BudgetPeriod
reload_period p s = elim (select (has_key p.budget_id p.period_start) s.periods) [
  | [] ↦ p
  | x ∷ rest ↦ x
]

-- an UPDATE of the target of a period, with the refresh of its spending
unfoldable pub shift_target : World → Budget → BudgetPeriod → (ℤ → ℤ) → Operation BudgetPeriod
unfolding update_period_spent_amount
shift_target w b p f = do
  modify (λ s. record s {
    periods =
        update_where (has_key p.budget_id p.period_start)
          (λ x. record x { adjusted_target = f x.adjusted_target }) s.periods;
  })
  q ← gets (reload_period p)
  update_period_spent_amount w b q

-- the current periods of the two budgets, and their targets
unfoldable pub move_targets : World → Budget → Budget → ℤ → Operation RebalanceStatus
unfolding get_or_create_current_period shift_target
move_targets w from to amount = do
  from_budget ← gets (reload from)
  from_period ← get_or_create_current_period w from_budget
  to_budget ← gets (reload to)
  to_period ← get_or_create_current_period w to_budget
  shift_target w from_budget from_period (λ t. t -ℤ amount)
  shift_target w to_budget to_period (λ t. t +ℤ amount)
  pure success

abbrev pub can_pay : ℕ → ℤ → Budget → Bool
can_pay k amount x = x.id == k && leb_ℤ amount x.amount

abbrev pub shifted : (ℤ → ℤ) → Budget → Budget
shifted f x = record x { amount = f x.amount }

-- the two UPDATE statements on the amounts
abbrev pub pay : ℕ → ℕ → ℤ → Session → Session
pay from_id to_id amount s = record s {
  budgets =
      update_where (has_id to_id) (shifted (λ a. a +ℤ amount))
        (update_where (can_pay from_id amount) (shifted (λ a. a -ℤ amount)) s.budgets);
}

abbrev pub same_currency : Budget → Budget → Bool
same_currency a b = text_eq (upper a.currency_code) (upper b.currency_code)

-- `if rowcount == 0: ...`
abbrev pub unless_unpaid : List Budget → Operation RebalanceStatus → Operation RebalanceStatus
unless_unpaid [] k = pure insufficient_funds
unless_unpaid (x ∷ rest) k = k

-- `rebalance_with_status` between two budgets that were found
unfoldable pub rebalance_found : World → Budget → Budget → ℤ → Operation RebalanceStatus
unfolding move_targets
rebalance_found w from to amount s =
    if not (same_currency from to)
    then (ok currency_mismatch, s)
    else unless_unpaid (select (can_pay from.id amount) s.budgets)
        (λ s. move_targets w from to amount (pay from.id to.id amount s)) s

abbrev pub both_found : World → Option Budget → Option Budget → ℤ → Operation RebalanceStatus
both_found w (some from) (some to) amount = rebalance_found w from to amount
both_found w _ _ amount = pure not_found

unfoldable pub rebalance_with_status : World → ℕ → ℕ → ℤ → ℕ → Operation RebalanceStatus
unfolding get_budget rebalance_found
rebalance_with_status w from_id to_id amount user_uuid =
    if leb_ℤ amount (pos 0) then pure invalid_amount else (do
      from ← get_budget from_id user_uuid
      to ← get_budget to_id user_uuid
      both_found w from to amount)
