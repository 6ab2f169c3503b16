-- ===== src/Budget/Tests.antt =====
-- A budget of two months, and the properties at it.
use finvo.Prelude.{
  map, ◌%◌, ◌+◌, ◌*◌, ◌≤◌, ◌<◌, ◌≡◌, ◌≢◌, refl, true, false, arith, leb, ◌==◌, none, [], ◌∷◌,
}
use finvo.Prelude.Int.{pos, pos_part, ◌+ℤ◌, ◌-ℤ◌, abs}
use finvo.Prelude.Lists.{select, count, update_where}
use finvo.Prelude.Text.{Text, codes, text_eq, upper}
use finvo.Prelude.Exec.{ok, err, final}
use finvo.Ledger.Model.{expense, cleared}
use finvo.Budget.Calendar.{Date, ymd, month_days, ordinal, civil, iso_week, IsDate}
use finvo.Budget.Range.{biweekly, monthly, week_start, calculate_period_range}
use finvo.Budget.Store.{
  Budget, active, BudgetPeriod, on_track, Spending, World, Session, out_of_fuel,
}
use finvo.Budget.Periods.{get_or_create_current_period}
use finvo.Budget.Service.{rebalance_with_status, success}
use finvo.Budget.Laws.Latest.{All, Late}
use finvo.Budget.Laws.Periods.{period-contains, period-same, period-next, biweekly_overlap}
use finvo.Budget.Laws.Ends.{get_or_create_current_period-Ends}
use finvo.Budget.Laws.Current.{IsToday, get_or_create_current_period-IsToday}
use finvo.Budget.Laws.Rows.{is_bad, IsTable, GoodRivals, get_or_create_current_period-IsTable}
use finvo.Budget.Laws.Amounts.{total, is_overdrawn}
use finvo.Budget.Laws.Rebalance.{Unique, rebalance_with_status-total}

-- the last day of February in a common year, and dates about it
abbrev last_of_february : Date
last_of_february = ymd 2 2 28

abbrev in_march : Date
in_march = ymd 2 3 30

last_of_february-IsDate : IsDate last_of_february
unfolding month_days
last_of_february-IsDate = record { in_year = omega arith; in_month = ground arith }

in_march-IsDate : IsDate in_march
unfolding month_days
in_march-IsDate = record { in_year = omega arith; in_month = ground arith }

period-contains_example :
    ((calculate_period_range monthly 31 last_of_february).0 ≤ ordinal last_of_february)
    × (ordinal last_of_february ≤ (calculate_period_range monthly 31 last_of_february).1)
period-contains_example =
    period-contains monthly 31 last_of_february last_of_february-IsDate (omega arith) (omega arith)

starts_before : (calculate_period_range monthly 31 last_of_february).0 ≤ ordinal in_march
unfolding calculate_period_range ordinal
starts_before = omega arith

ends_after : ordinal in_march ≤ (calculate_period_range monthly 31 last_of_february).1
unfolding calculate_period_range ordinal
ends_after = omega arith

period-same_example :
    calculate_period_range monthly 31 in_march ≡ calculate_period_range monthly 31 last_of_february
period-same_example =
    period-same monthly 31 last_of_february in_march refl last_of_february-IsDate in_march-IsDate
      (omega arith) (omega arith) (omega arith) starts_before ends_after

period-next_example :
    (calculate_period_range monthly 31
      (civil ((calculate_period_range monthly 31 last_of_february).1 + 1))).0
    ≡ (calculate_period_range monthly 31 last_of_february).1 + 1
period-next_example =
    period-next monthly 31 last_of_february refl last_of_february-IsDate (omega arith) (omega arith)

-- a day in the 53rd ISO week of the year 20, and the day a week later
abbrev week_53 : Date
week_53 = ymd 20 12 30

week_53-IsDate : IsDate week_53
unfolding month_days
week_53-IsDate = record { in_year = omega arith; in_month = ground arith }

abbrev week_1 : Date
week_1 = ymd 21 1 6

a_week_later : ordinal week_1 ≡ ordinal week_53 + 7
unfolding ordinal
a_week_later = refl

week_53_odd : iso_week (week_start 1 (ordinal week_53)) % 2 ≡ 1
unfolding iso_week week_start ordinal
week_53_odd = refl

week_1_odd : iso_week (week_start 1 (ordinal week_1)) % 2 ≡ 1
unfolding iso_week week_start ordinal
week_1_odd = refl

biweekly_overlap_example :
    ((calculate_period_range biweekly 1 week_53).0 < (calculate_period_range biweekly 1 week_1).0)
    × ((calculate_period_range biweekly 1 week_1).0 ≤ (calculate_period_range biweekly 1 week_53).1)
biweekly_overlap_example =
    biweekly_overlap 1 week_53 week_1 week_53-IsDate (omega arith) (omega arith) a_week_later
      week_53_odd week_1_odd

abbrev cny : Text
cny = codes "CNY"

abbrev dinner : Spending
dinner = record {
  tx = record {
    uuid = 1;
    user_uuid = 9;
    tx_type = expense;
    status = cleared;
    amount = pos 200;
    amount_original = pos 200;
    currency = cny;
    exchange_rate = none;
    source_account_id = none;
    target_account_id = none;
  };
  is_system = false;
  category_key = none;
  transaction_at = 735;
}

-- The 5th of March of the year 2 is today, and no other worker is at work.
abbrev world : World
world = record {
  today = λ u. 794;
  midnight = λ u n. n;
  transactions = dinner ∷ [];
  settings = λ u. none;
  float_reaches =
      λ threshold spent target. leb (threshold * pos_part target) (100 * pos_part spent);
  rival = λ k start. none;
  base_currency = λ u. cny;
  convert = λ amount from to. none;
}

abbrev food : Budget
food = record {
  id = 1;
  owner_uuid = 9;
  category_key = none;
  amount = pos 1000;
  currency_code = cny;
  period_type = monthly;
  period_anchor_day = 1;
  rollover_enabled = true;
  rollover_balance = pos 0;
  status = active;
}

abbrev travel : Budget
travel = record food { id = 2; amount = pos 300; rollover_enabled = false }

abbrev january : BudgetPeriod
january = record {
  budget_id = 1;
  period_start = 731;
  period_end = 761;
  spent_amount = pos 0;
  rollover_in = pos 0;
  rollover_out = pos 0;
  adjusted_target = pos 1000;
  status = on_track;
}

abbrev march : BudgetPeriod
march = record january {
  period_start = 790;
  period_end = 820;
  rollover_in = pos 1800;
  adjusted_target = pos 2800;
}

-- The service was last used in January.
abbrev after_winter : Session
after_winter = record { budgets = food ∷ travel ∷ []; periods = january ∷ [] }

-- The two months that were missed are filled; the surplus of January, less the dinner, is in March.
filled : (get_or_create_current_period world food after_winter).0 ≡ ok march
unfolding get_or_create_current_period select update_where ◌-ℤ◌ abs ◌+ℤ◌
filled = refl

after_winter-Late : All Late after_winter.periods
after_winter-Late = (omega arith, tt)

after_winter-IsTable : IsTable after_winter.periods
unfolding count is_bad
after_winter-IsTable = record { keyed = λ k start. ground arith; good = refl }

no_rivals : GoodRivals world
no_rivals k start r e = cc

get_or_create_current_period-Ends_example :
    (get_or_create_current_period world food after_winter).0 ≢ err out_of_fuel
get_or_create_current_period-Ends_example =
    get_or_create_current_period-Ends world food after_winter (omega arith) after_winter-Late

get_or_create_current_period-IsToday_example :
    IsToday world food march (final (get_or_create_current_period world food after_winter))
get_or_create_current_period-IsToday_example =
    get_or_create_current_period-IsToday world food march after_winter (omega arith) (omega arith)
      filled

get_or_create_current_period-IsTable_example :
    IsTable (final (get_or_create_current_period world food after_winter)).periods
get_or_create_current_period-IsTable_example =
    get_or_create_current_period-IsTable world food after_winter no_rivals (omega arith)
      (omega arith) after_winter-Late after_winter-IsTable

after_winter-Unique : Unique after_winter.budgets
unfolding count
after_winter-Unique k = ground arith

none_overdrawn : count is_overdrawn after_winter.budgets ≡ 0
unfolding count is_overdrawn
none_overdrawn = refl

rebalanced : (rebalance_with_status world 1 2 (pos 100) 9 after_winter).0 ≡ ok success
unfolding rebalance_with_status select text_eq upper update_where ◌-ℤ◌ abs ◌+ℤ◌
rebalanced = refl

rebalance_with_status-total_example :
    (total (final (rebalance_with_status world 1 2 (pos 100) 9 after_winter)).budgets
      ≡ total after_winter.budgets)
    × (count is_overdrawn (final (rebalance_with_status world 1 2 (pos 100) 9 after_winter)).budgets
        ≡ 0)
rebalance_with_status-total_example =
    rebalance_with_status-total world 1 2 (pos 100) 9 after_winter after_winter-Unique
      none_overdrawn

-- A budget without a period gets one whose target has the moved amount twice: from 300 to 500.
moved_twice :
    map
      (λ p. p.adjusted_target)
      (select
        (λ p. p.budget_id == 2)
        (final (rebalance_with_status world 1 2 (pos 100) 9 after_winter)).periods)
    ≡ pos 500 ∷ []
unfolding rebalance_with_status select text_eq upper update_where ◌-ℤ◌ abs ◌+ℤ◌
moved_twice = refl
