-- ===== src/Budget/Laws/Ends.antt =====
-- The loop of `get_or_create_current_period` that fills the gap after the last period.
use finvo.Prelude.{
  ℕ, zero, suc, ◌+◌, ◌-◌, ◌≤◌, ◌≡◌, ◌≢◌, refl, Bool, arith, leb, Bool-cases, inl, inr, Option, none,
  some, List, [], ◌∷◌, ◌==◌,
}
use finvo.Prelude.Int.{ℤ}
use finvo.Prelude.Lists.{select}
use finvo.Prelude.Exec.{Outcome, ok, err, after, pure, gets, or_raise, ◌>>=◌, ◌>>◌}
use finvo.Budget.Calendar.{civil}
use finvo.Budget.Range.{calculate_period_range}
use finvo.Budget.Store.{
  Budget, BudgetPeriod, World, Session, BudgetError, out_of_fuel, Operation, scalar_one_or_none,
  has_key, try_except, after_try,
}
use finvo.Budget.Spending.{update_period_spent_amount}
use finvo.Budget.Periods.{
  current_period, is_current, latest, insert_period, carry, book_rollover, query_key, try_insert,
  found_or, fill_period, fill_gap, create_initial, elapsed, resume, get_or_create_current_period,
}
use finvo.Budget.Laws.Latest.{All, AllOption, Late, previous-All}
use finvo.Budget.Laws.Months.{civil-ordinal}
use finvo.Budget.Laws.Periods.{civil_late, period-contains}

-- `m` does not stop for want of fuel.
abbrev pub Ends : {A : Type 0} → Operation A → Type 0
Ends m = (s : Session) → (m s).0 ≢ err out_of_fuel

module _ {A B : Type 0} where
  Ends-bind :
      (m : Operation A) (f : A → Operation B) → Ends m → ((a : A) → Ends (f a)) → Ends (m >>= f)
  Ends-bind m f hm hf s = go (m s) (hm s)
    where
      go :
          (r : Outcome BudgetError A × Session)
          → r.0 ≢ err out_of_fuel
          → (after r.0 f r.1).0 ≢ err out_of_fuel
      go (ok a, s') h = hf a s'
      go (err e, s') h = λ k. h (err_of e k)
        where
          err_of :
              (e : BudgetError)
              → ◌≡◌ {A = Outcome BudgetError B} (err e) (err out_of_fuel)
              → ◌≡◌ {A = Outcome BudgetError A} (err e) (err out_of_fuel)
          err_of e k = cc

Ends-query : {A : Type 0} (rows : List A) → Ends (scalar_one_or_none rows)
Ends-query [] s = cc
Ends-query (x ∷ []) s = cc
Ends-query (x ∷ y ∷ rest) s = cc

Ends-select :
    (q : BudgetPeriod → Bool) → Ends (gets (λ s. select q s.periods) >>= scalar_one_or_none)
Ends-select q s = Ends-query (select q s.periods) s

Ends-current_period : (w : World) (b : Budget) → Ends (current_period w b)
unfolding current_period
Ends-current_period w b = Ends-select (is_current w b)

Ends-insert_period : (w : World) (p : BudgetPeriod) → Ends (insert_period w p)
unfolding insert_period
Ends-insert_period w p s = ground arith

Ends-try :
    {A B : Type 0} (m : Operation A) (k : A → Operation B) (h : Operation B)
    → Ends m
    → ((a : A) → Ends (k a))
    → Ends h
    → Ends (try_except m k h)
Ends-try {A} {B} m k h em ek eh s = go (m s) (em s)
  where
    go :
        (r : Outcome BudgetError A × Session)
        → r.0 ≢ err out_of_fuel
        → (after_try r.0 k h r.1).0 ≢ err out_of_fuel
    go (ok a, s') e = ek a s'
    go (err BudgetError.integrity_error, s') e = eh s'
    go (err BudgetError.multiple_rows, s') e = cc
    go (err BudgetError.rate_unavailable, s') e = cc
    go (err BudgetError.out_of_fuel, s') e = absurd (e refl)

Ends-carry : (w : World) (b : Budget) (prev : BudgetPeriod) → Ends (carry w b prev)
unfolding carry update_period_spent_amount
Ends-carry w b prev s = ground arith

Ends-book_rollover :
    (b : Budget) (prev new : BudgetPeriod) (amount : ℤ)
    → Ends (book_rollover b prev amount >> pure new)
unfolding book_rollover
Ends-book_rollover b prev new amount s = ground arith

Ends-found :
    (found : Option BudgetPeriod) (m : Operation BudgetPeriod) → Ends m → Ends (found_or found m)
Ends-found none m h s = h s
Ends-found (some p) m h s = cc

Ends-fill_period :
    (w : World) (b : Budget) (range : ℕ × ℕ) (prev : BudgetPeriod)
    → Ends (fill_period w b range prev)
unfolding fill_period try_insert
Ends-fill_period w b range prev =
    Ends-bind (query_key b.id range.0) _ (Ends-select (has_key b.id range.0)) (λ found.
      Ends-found found _ (
        Ends-bind (carry w b prev) _ (Ends-carry w b prev) (λ carried.
          Ends-try (insert_period w _) _ _ (Ends-insert_period w _)
            (λ _. Ends-book_rollover b carried.0 _ carried.1)
            (Ends-bind (query_key b.id range.0) _ (Ends-select (has_key b.id range.0))
              (λ found' s. cc)))))

-- The rounds that the loop is given are enough: each moves the date by a day or more.
pub Ends-fill_gap :
    (w : World) (b : Budget) (fuel reference : ℕ) (prev : BudgetPeriod)
    → 1 ≤ b.period_anchor_day
    → 366 ≤ reference
    → w.today b.owner_uuid + 1 - reference ≤ fuel
    → Ends (fill_gap w b fuel reference prev)
unfolding fill_gap
Ends-fill_gap w b zero reference prev lo late enough = λ s. ground arith
Ends-fill_gap w b (suc fuel) reference prev lo late enough =
    let found = civil-ordinal reference in
    let range = calculate_period_range b.period_type b.period_anchor_day (civil reference) in
    let inside =
      period-contains b.period_type b.period_anchor_day (civil reference) found.0
        (civil_late reference late) lo in
    elim (Bool-cases (leb reference (w.today b.owner_uuid))) [
      | inl more ↦ rw more (
          Ends-bind (fill_period w b range prev) _ (Ends-fill_period w b range prev) (λ p.
            Ends-fill_gap w b fuel (range.1 + 1) p lo (omega (arith, found.1, inside))
              (ground (arith, found.1, inside))))
      | inr done ↦ rw done (λ s. cc)
    ]

Ends-create_initial : (w : World) (b : Budget) → Ends (create_initial w b)
unfolding create_initial
Ends-create_initial w b =
    Ends-try (insert_period w _) _ _ (Ends-insert_period w _) (λ _ s. cc)
      (Ends-bind (current_period w b) _ (Ends-current_period w b) raises)
  where
    raises : (found : Option BudgetPeriod) → Ends (or_raise found BudgetError.integrity_error)
    raises none s = cc
    raises (some p) s = cc

Ends-resume :
    (w : World) (b : Budget) (prev : Option BudgetPeriod)
    → 1 ≤ b.period_anchor_day
    → AllOption Late prev
    → Ends (resume w b prev)
unfolding resume
Ends-resume w b none lo late = Ends-create_initial w b
Ends-resume w b (some prev) lo late =
    Ends-bind (fill_gap w b _ _ prev) _
      (Ends-fill_gap w b _ (prev.period_end + 1) prev lo (omega arith) (omega arith))
      (λ _.
        Ends-bind (current_period w b) _ (Ends-current_period w b)
          (λ final. Ends-found final _ (Ends-create_initial w b)))

-- `get_or_create_current_period` ends: the rounds of its loop that are allowed for are enough,
-- whichever rows other workers insert meanwhile, if the rows of the table of periods end after the
-- year 0 and the anchor day is 1 or more.
pub get_or_create_current_period-Ends :
    (w : World) (b : Budget) (s : Session)
    → 1 ≤ b.period_anchor_day
    → All Late s.periods
    → (get_or_create_current_period w b s).0 ≢ err out_of_fuel
unfolding get_or_create_current_period current_period
get_or_create_current_period-Ends w b s lo late = go (select (is_current w b) s.periods)
  where
    go :
        (rows : List BudgetPeriod)
        → ((scalar_one_or_none rows >>= λ current. found_or current (
              gets (λ s. latest (select (λ p. p.budget_id == b.id) s.periods)) >>= λ prev.
              resume w b (elapsed prev (w.today b.owner_uuid))))
            s).0
          ≢ err out_of_fuel
    go [] =
        Ends-resume w b
          (elapsed (latest (select (λ p. p.budget_id == b.id) s.periods)) (w.today b.owner_uuid)) lo
          (previous-All Late b.id (w.today b.owner_uuid) s.periods late) s
    go (p ∷ []) = cc
    go (p ∷ q ∷ rest) = cc
