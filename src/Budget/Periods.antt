-- ===== src/Budget/Periods.antt =====
-- server/app/services/budget_period_service.py: the period of today, the periods that a gap has
-- left out, and what is carried over from one period to the next.
use finvo.Prelude.{
  ℕ, zero, suc, ◌+◌, ◌-◌, Bool, true, false, ◌&&◌, Option, none, some, List, [], ◌∷◌, ◌++◌, ◌==◌,
  leb, ltb, if◌then◌else◌,
}
use finvo.Prelude.Int.{ℤ, pos, ◌+ℤ◌, ◌-ℤ◌, is_zero, ltb_ℤ}
use finvo.Prelude.Lists.{select}
use finvo.Prelude.Exec.{or_raise, ok, err, pure, raise, gets, ◌>>=◌, ◌>>◌}
use finvo.Budget.Calendar.{civil}
use finvo.Budget.Range.{calculate_period_range}
use finvo.Budget.Spending.{update_period_spent_amount}
use finvo.Budget.Store.{
  Session, Budget, BudgetPeriod, on_track, World, integrity_error, out_of_fuel, Operation,
  scalar_one_or_none, try_except, has_key, write_period, write_budget,
}

abbrev pub is_current : World → Budget → BudgetPeriod → Bool
is_current w b p =
    p.budget_id == b.id
    && leb p.period_start (w.today b.owner_uuid)
    && leb (w.today b.owner_uuid) p.period_end

-- `_get_current_period`
unfoldable pub current_period : World → Budget → Operation (Option BudgetPeriod)
current_period w b = do
  rows ← gets (λ s. select (is_current w b) s.periods)
  scalar_one_or_none rows

-- `ORDER BY period_end DESC LIMIT 1`
unfoldable pub latest : List BudgetPeriod → Option BudgetPeriod
latest [] = none
latest (p ∷ rest) = elim (latest rest) [
  | none ↦ some p
  | some q ↦ if ltb p.period_end q.period_end then some q else some p
]

abbrev pub fresh_period : Budget → ℕ × ℕ → ℤ → BudgetPeriod
fresh_period b (start, end) rollover_in = record {
  budget_id = b.id;
  period_start = start;
  period_end = end;
  spent_amount = pos 0;
  rollover_in = rollover_in;
  rollover_out = pos 0;
  adjusted_target = b.amount +ℤ rollover_in;
  status = on_track;
}

-- the row of the other worker, with the key of the insertion that it makes fail
abbrev pub keyed_like : BudgetPeriod → BudgetPeriod → BudgetPeriod
keyed_like p r = record r { budget_id = p.budget_id; period_start = p.period_start }

abbrev pub added : BudgetPeriod → Session → Session
added p s = record s { periods = s.periods ++ p ∷ [] }

abbrev pub clear : List BudgetPeriod → Bool
clear [] = true
clear _ = false

-- `add` and `flush` under a savepoint
unfoldable pub insert_period : World → BudgetPeriod → Operation (Unit {0})
insert_period w p s =
    if clear (select (has_key p.budget_id p.period_start) s.periods)
    then elim (w.rival p.budget_id p.period_start) [
      | none ↦ (ok tt, added p s)
      | some r ↦ (err integrity_error, added (keyed_like p r) s)
    ]
    else (err integrity_error, s)

-- the surplus that the previous period leaves, which is never negative
unfoldable pub surplus : BudgetPeriod → ℤ
surplus p =
    let unused = p.adjusted_target -ℤ p.spent_amount in
    if ltb_ℤ unused (pos 0) then pos 0 else unused

-- `prev_period` after its refresh, and `rollover_in`
unfoldable pub carry : World → Budget → BudgetPeriod → Operation (BudgetPeriod × ℤ)
unfolding update_period_spent_amount surplus
carry w b prev =
    if b.rollover_enabled
    then (do p ← update_period_spent_amount w b prev; pure (p, surplus p))
    else pure (prev, pos 0)

-- the movement of the surplus, after the insertion
unfoldable pub book_rollover : Budget → BudgetPeriod → ℤ → Operation (Unit {0})
book_rollover b prev rollover_in = if is_zero rollover_in then pure tt else (do
  write_period (record prev { rollover_out = rollover_in })
  write_budget b.id (λ x. record x { rollover_balance = x.rollover_balance +ℤ rollover_in }))

abbrev pub query_key : ℕ → ℕ → Operation (Option BudgetPeriod)
query_key budget_id start = do
  rows ← gets (λ s. select (has_key budget_id start) s.periods)
  scalar_one_or_none rows

abbrev pub or_else : Option BudgetPeriod → BudgetPeriod → BudgetPeriod
or_else none p = p
or_else (some q) _ = q

-- The `try` statement of the loop: the new period, or the one that another worker has inserted.
unfoldable pub try_insert :
    World → Budget → BudgetPeriod → ℤ → BudgetPeriod → Operation BudgetPeriod
unfolding insert_period book_rollover
try_insert w b prev rollover_in new =
    try_except (insert_period w new) (λ _. book_rollover b prev rollover_in >> pure new)
      (query_key b.id new.period_start >>= λ found. pure (or_else found prev))

abbrev pub found_or : Option BudgetPeriod → Operation BudgetPeriod → Operation BudgetPeriod
found_or (some p) otherwise = pure p
found_or none otherwise = otherwise

-- One round of the loop: the period of a range, which is created unless it is there.
unfoldable pub fill_period : World → Budget → ℕ × ℕ → BudgetPeriod → Operation BudgetPeriod
unfolding carry try_insert
fill_period w b range prev = do
  found ← query_key b.id range.0
  found_or found (do
    carried ← carry w b prev
    try_insert w b carried.0 carried.1 (fresh_period b range carried.1))

-- `while reference_date <= today`; the count of rounds that are left stands before the date.
unfoldable pub fill_gap : World → Budget → ℕ → ℕ → BudgetPeriod → Operation BudgetPeriod
unfolding fill_period calculate_period_range
fill_gap w b zero reference prev =
    if leb reference (w.today b.owner_uuid) then raise out_of_fuel else pure prev
fill_gap w b (suc fuel) reference prev =
    let range = calculate_period_range b.period_type b.period_anchor_day (civil reference) in
    let round = fill_period w b range prev >>= λ p. fill_gap w b fuel (range.1 + 1) p in
    if leb reference (w.today b.owner_uuid) then round else pure prev

-- The creation of a first period, or of one where the last period ends later than today
unfoldable pub create_initial : World → Budget → Operation BudgetPeriod
unfolding insert_period current_period calculate_period_range
create_initial w b =
    let today = w.today b.owner_uuid in
    let range = calculate_period_range b.period_type b.period_anchor_day (civil today) in
    let initial = fresh_period b range (pos 0) in
    try_except (insert_period w initial) (λ _. pure initial)
      (do existing ← current_period w b; or_raise existing integrity_error)

abbrev pub elapsed : Option BudgetPeriod → ℕ → Option BudgetPeriod
elapsed none today = none
elapsed (some p) today = if ltb p.period_end today then some p else none

-- After the last period that has ended: the periods up to today, and the one of today.
unfoldable pub resume : World → Budget → Option BudgetPeriod → Operation BudgetPeriod
unfolding fill_gap current_period create_initial
resume w b none = create_initial w b
resume w b (some prev) = do
  let reference = prev.period_end + 1
  fill_gap w b (w.today b.owner_uuid + 1 - reference) reference prev
  final ← current_period w b
  found_or final (create_initial w b)

unfoldable pub get_or_create_current_period : World → Budget → Operation BudgetPeriod
unfolding current_period latest resume
get_or_create_current_period w b = do
  current ← current_period w b
  found_or current (do
    prev ← gets (λ s. latest (select (λ p. p.budget_id == b.id) s.periods))
    resume w b (elapsed prev (w.today b.owner_uuid)))
