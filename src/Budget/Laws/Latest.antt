-- ===== src/Budget/Laws/Latest.antt =====
-- The last period of a budget, from which the service goes on.
use finvo.Prelude.{
  ℕ, ◌≤◌, Bool, ltb, ◌==◌, if◌then◌else◌, Bool-cases, inl, inr, Option, none, some, List, [], ◌∷◌,
}
use finvo.Prelude.Lists.{select}
use finvo.Budget.Store.{BudgetPeriod}
use finvo.Budget.Periods.{latest, elapsed}

-- A row ends after the year 0, which Python's dates do not have.
abbrev pub Late : BudgetPeriod → Type 0
Late p = 366 ≤ p.period_end

module _ (P : BudgetPeriod → Type 0) where
  abbrev pub All : List BudgetPeriod → Type 0
  All [] = Unit
  All (p ∷ rest) = P p × All rest

  abbrev pub AllOption : Option BudgetPeriod → Type 0
  AllOption none = Unit
  AllOption (some p) = P p

  pub All-select : (q : BudgetPeriod → Bool) (ps : List BudgetPeriod) → All ps → All (select q ps)
  unfolding select
  All-select q [] h = tt
  All-select q (p ∷ ps) h = elim (Bool-cases (q p)) [
    | inl e ↦ rw e (h.0, All-select q ps h.1)
    | inr e ↦ rw e (All-select q ps h.1)
  ]

  All-latest : (ps : List BudgetPeriod) → All ps → AllOption (latest ps)
  unfolding latest
  All-latest [] h = tt
  All-latest (p ∷ ps) h = later (latest ps) p h.0 (All-latest ps h.1)
    where
      later :
          (o : Option BudgetPeriod) (p : BudgetPeriod)
          → P p
          → AllOption o
          → AllOption (elim o [
            | none ↦ some p
            | some q ↦ if ltb p.period_end q.period_end then some q else some p
          ])
      later none p a b = a
      later (some q) p a b = elim (Bool-cases (ltb p.period_end q.period_end)) [
        | inl e ↦ rw e b
        | inr e ↦ rw e a
      ]

  All-elapsed : (o : Option BudgetPeriod) (today : ℕ) → AllOption o → AllOption (elapsed o today)
  All-elapsed none today h = tt
  All-elapsed (some p) today h = elim (Bool-cases (ltb p.period_end today)) [
    | inl e ↦ rw e h
    | inr e ↦ rw e tt
  ]

  pub previous-All :
      (k today : ℕ) (ps : List BudgetPeriod)
      → All ps
      → AllOption (elapsed (latest (select (λ p. p.budget_id == k) ps)) today)
  previous-All k today ps h =
      All-elapsed _ today (All-latest _ (All-select (λ p. p.budget_id == k) ps h))
