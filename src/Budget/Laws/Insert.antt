-- ===== src/Budget/Laws/Insert.antt =====
-- The insertion of a period.
use finvo.Prelude.{◌≡◌, true, Bool-cases, inl, inr, some, Option-cases}
use finvo.Prelude.Lists.{select}
use finvo.Prelude.Exec.{Outcome, ok, err}
use finvo.Budget.Store.{
  BudgetPeriod, World, Session, BudgetError, integrity_error, Operation, try_except, after_try,
  has_key,
}
use finvo.Budget.Periods.{insert_period, keyed_like, added, clear}

-- The three ways an insertion can go: it wins, another worker has won, or the row was there.
insert_period_rule :
    (P : Outcome BudgetError (Unit {0}) × Session → Type 0) (w : World) (p : BudgetPeriod)
    (s : Session)
    → (clear (select (has_key p.budget_id p.period_start) s.periods) ≡ true → P (ok tt, added p s))
    → ((r : BudgetPeriod)
        → clear (select (has_key p.budget_id p.period_start) s.periods) ≡ true
        → w.rival p.budget_id p.period_start ≡ some r
        → P (err integrity_error, added (keyed_like p r) s))
    → P (err integrity_error, s)
    → P (insert_period w p s)
unfolding insert_period
insert_period_rule P w p s won lost there =
    elim (Bool-cases (clear (select (has_key p.budget_id p.period_start) s.periods))) [
      | inl e ↦ elim (Option-cases (w.rival p.budget_id p.period_start)) [
        | inl none_there ↦ rw (e, none_there) (won e)
        | inr (r, some_there) ↦ rw (e, some_there) (lost r e some_there)
      ]
      | inr e ↦ rw e there
    ]

pub try_insert_rule :
    {B : Type 0} (P : Outcome BudgetError B × Session → Type 0) (w : World) (p : BudgetPeriod)
    (k : Unit {0} → Operation B) (h : Operation B) (s : Session)
    → (clear (select (has_key p.budget_id p.period_start) s.periods) ≡ true → P (k tt (added p s)))
    → ((r : BudgetPeriod)
        → clear (select (has_key p.budget_id p.period_start) s.periods) ≡ true
        → w.rival p.budget_id p.period_start ≡ some r
        → P (h (added (keyed_like p r) s)))
    → P (h s)
    → P (try_except (insert_period w p) k h s)
try_insert_rule P w p k h s won lost there =
    insert_period_rule (λ r. P (after_try r.0 k h r.1)) w p s won lost there
