-- ===== src/Budget/Laws/Current.antt =====
-- What `get_or_create_current_period` returns.
use finvo.Prelude.{◌≤◌, ◌≡◌, refl, arith, Option, none, some, List, [], ◌∷◌}
use finvo.Prelude.Int.{pos}
use finvo.Budget.Calendar.{civil}
use finvo.Budget.Range.{calculate_period_range}
use finvo.Prelude.Lists.{select, count, select_sound, count-append, count-of_select}
use finvo.Prelude.Exec.{ok, or_raise, ◌>>=◌, Ensures, Ensures-bind, of_ensures, final}
use finvo.Budget.Calendar.{civil}
use finvo.Budget.Range.{calculate_period_range}
use finvo.Budget.Store.{
  Budget, BudgetPeriod, World, Session, integrity_error, Operation, scalar_one_or_none,
}
use finvo.Budget.Periods.{
  current_period, is_current, added, found_or, fresh_period, fill_gap, create_initial, resume,
  get_or_create_current_period,
}
use finvo.Budget.Laws.Months.{civil-ordinal}
use finvo.Budget.Laws.Insert.{try_insert_rule}
use finvo.Budget.Laws.Periods.{civil_late, period-contains}

-- A stored period of the budget has the owner's date of today, and `p` is such a period.
pub record IsToday (w : World) (b : Budget) (p : BudgetPeriod) (s : Session) : Type 0 where
  pub owned : p.budget_id ≡ b.id
  pub begun : p.period_start ≤ w.today b.owner_uuid
  pub running : w.today b.owner_uuid ≤ p.period_end
  pub stored : 1 ≤ count (is_current w b) s.periods

IsToday-found :
    (w : World) (b : Budget) (p : BudgetPeriod) (s : Session)
    → select (is_current w b) s.periods ≡ p ∷ []
    → IsToday w b p s
IsToday-found w b p s e =
    let current = select_sound (is_current w b) s.periods e in
    record {
      owned = ground (arith, current);
      begun = ground (arith, current);
      running = ground (arith, current);
      stored = count-of_select (is_current w b) (is_current w b) s.periods e current;
    }

new_today :
    (w : World) (b : Budget) (s : Session) (p : BudgetPeriod)
    → p.budget_id ≡ b.id
    → p.period_start ≤ w.today b.owner_uuid
    → w.today b.owner_uuid ≤ p.period_end
    → IsToday w b p (added p s)
unfolding count
new_today w b s p own begun running = record {
  owned = own;
  begun = begun;
  running = running;
  stored = ground (arith, count-append (is_current w b) s.periods (p ∷ []));
}

found_lem :
    (w : World) (b : Budget) (m : Operation BudgetPeriod) (s : Session)
    → Ensures (IsToday w b) (m s)
    → Ensures (IsToday w b) ((current_period w b >>= λ found. found_or found m) s)
unfolding current_period
found_lem w b m s h = go (select (is_current w b) s.periods) refl
  where
    go :
        (rows : List BudgetPeriod)
        → select (is_current w b) s.periods ≡ rows
        → Ensures (IsToday w b) ((scalar_one_or_none rows >>= λ found. found_or found m) s)
    go [] e = h
    go (p ∷ []) e = IsToday-found w b p s e
    go (p ∷ q ∷ rest) e = tt

existing_lem :
    (w : World) (b : Budget) (s : Session)
    → Ensures (IsToday w b) ((current_period w b >>= λ found. or_raise found integrity_error) s)
unfolding current_period
existing_lem w b s = go (select (is_current w b) s.periods) refl
  where
    go :
        (rows : List BudgetPeriod)
        → select (is_current w b) s.periods ≡ rows
        → Ensures
            (IsToday w b)
            ((scalar_one_or_none rows >>= λ found. or_raise found integrity_error) s)
    go [] e = tt
    go (p ∷ []) e = IsToday-found w b p s e
    go (p ∷ q ∷ rest) e = tt

create_initial_lem :
    (w : World) (b : Budget) (s : Session)
    → 1 ≤ b.period_anchor_day
    → 366 ≤ w.today b.owner_uuid
    → Ensures (IsToday w b) (create_initial w b s)
unfolding create_initial
create_initial_lem w b s lo late =
    let found = civil-ordinal (w.today b.owner_uuid) in
    let inside =
      period-contains b.period_type b.period_anchor_day (civil (w.today b.owner_uuid)) found.0
        (civil_late _ late) lo in
    try_insert_rule (Ensures (IsToday w b)) w
      (fresh_period b
        (calculate_period_range b.period_type b.period_anchor_day (civil (w.today b.owner_uuid)))
        (pos 0))
      _ _ s
      (λ _.
        new_today w b s
          (fresh_period b
            (calculate_period_range b.period_type b.period_anchor_day
              (civil (w.today b.owner_uuid)))
            (pos 0))
          refl (omega (arith, inside, found.1)) (omega (arith, inside, found.1)))
      (λ r _ _. existing_lem w b _) (existing_lem w b s)

resume_lem :
    (w : World) (b : Budget) (prev : Option BudgetPeriod) (s : Session)
    → 1 ≤ b.period_anchor_day
    → 366 ≤ w.today b.owner_uuid
    → Ensures (IsToday w b) (resume w b prev s)
unfolding resume
resume_lem w b none s lo late = create_initial_lem w b s lo late
resume_lem w b (some prev) s lo late =
    Ensures-bind (IsToday w b) (fill_gap w b _ _ prev) _ s
      (λ _ s'. found_lem w b (create_initial w b) s' (create_initial_lem w b s' lo late))

-- The period that `get_or_create_current_period` returns is a period of the budget that has the
-- owner's date of today, and a stored period of the budget has that date, whichever rows other
-- workers insert meanwhile, if today is in the year 1 or later and the anchor day is 1 or more.
pub get_or_create_current_period-IsToday :
    (w : World) (b : Budget) (p : BudgetPeriod) (s : Session)
    → 1 ≤ b.period_anchor_day
    → 366 ≤ w.today b.owner_uuid
    → (get_or_create_current_period w b s).0 ≡ ok p
    → IsToday w b p (final (get_or_create_current_period w b s))
unfolding get_or_create_current_period
get_or_create_current_period-IsToday w b p s lo late e =
    of_ensures (IsToday w b) (get_or_create_current_period w b s) p
      (found_lem w b _ s (resume_lem w b _ s lo late)) e
