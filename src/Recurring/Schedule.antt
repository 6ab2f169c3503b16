-- ===== src/Recurring/Schedule.antt =====
-- `calculate_next_execution`: the next instant at which a rule is due.
use finvo.Prelude.{
  ℕ, zero, suc, ◌+◌, ◌-◌, ◌*◌, Bool, true, false, not, ◌&&◌, ◌||◌, Option, none, some, List, [],
  ◌∷◌, ◌==◌, ltb, leb, if◌then◌else◌,
}
use finvo.Prelude.Text.{Text, codes, upper}
use finvo.Budget.Calendar.{month_days, ymd, ordinal, civil}
use finvo.Budget.Range.{min}
use finvo.Recurring.Store.{Rule, World}

-- `_MAX_EXCEPTION_RECURSION`
abbrev pub max_exception_recursion : ℕ
max_exception_recursion = 100

-- `day in exception_set`
unfoldable pub is_excepted : List ℕ → ℕ → Bool
is_excepted [] day = false
is_excepted (d ∷ ds) day = d == day || is_excepted ds day

abbrev is_digit : ℕ → Bool
is_digit c = leb b'0' c && leb c b'9'

-- what follows the prefix `p` of a text
unfoldable pub drop_prefix : Text → Text → Option Text
drop_prefix [] t = some t
drop_prefix (a ∷ p) [] = none
drop_prefix (a ∷ p) (c ∷ t) = if a == c then drop_prefix p t else none

abbrev first_of_two : Option Text → Option Text → Option Text
first_of_two (some t) other = some t
first_of_two none other = other

-- what follows the first `p` in a text
unfoldable pub find_after : Text → Text → Option Text
unfolding drop_prefix
find_after p [] = drop_prefix p []
find_after p (c ∷ t) = first_of_two (drop_prefix p (c ∷ t)) (find_after p t)

unfoldable pub digits : Text → ℕ → ℕ
digits [] n = n
digits (c ∷ t) n = let rest = digits t (10 * n + (c - b'0')) in if is_digit c then rest else n

-- a day of a month after the 28th, which the rule has in BYMONTHDAY; a day from the end of the month
-- is negative, so it is none
abbrev month_end : Option Text → Option Text → Option ℕ
month_end (some freq) (some t) = let day = digits t 0 in if ltb 28 day then some day else none
month_end _ _ = none

unfoldable pub target_day : Text → Option ℕ
unfolding find_after digits
target_day rule =
    month_end (find_after (codes "FREQ=MONTHLY") (upper rule))
      (find_after (codes "BYMONTHDAY=") (upper rule))

abbrev pub is_past : Option ℕ → ℕ → Bool
is_past none day = false
is_past (some end) day = ltb end day

-- the earlier of `next_occ` and a candidate
abbrev pub earlier : Option ℕ → ℕ → Option ℕ
earlier none at_time = some at_time
earlier (some n) at_time = if ltb at_time n then some at_time else some n

module _ (w : World) (r : Rule) where
  -- The loop of the month-end alignment, with the months that are left, from a month on.
  unfoldable pub align : ℕ → ℕ → ℕ → ℕ → ℕ → Option ℕ → Option ℕ
  unfolding is_excepted
  align target start zero year month next = next
  align target start (suc left) year month next =
      let day = ordinal (ymd year month (min target (month_days year month))) in
      let at_time = w.midnight day in
      let later =
        align target start left (if month == 12 then year + 1 else year)
          (if month == 12 then 1 else month + 1) next in
      if not (ltb w.now at_time && leb start day)
      then later
      else if is_past r.end_date day
      then next
      else if is_excepted r.exception_dates day
      then later
      else earlier next at_time

  abbrev pub aligned : Option ℕ → ℕ → Option ℕ → Option ℕ
  aligned none start next = next
  aligned (some target) start next =
      let today = civil (w.day_of w.now) in align target start 12 today.year today.month next

  abbrev pub occurrence : ℕ → Option (Option ℕ) → Option ℕ
  occurrence start none = none
  occurrence start (some next) = aligned (target_day r.recurrence_rule) start next

  -- the occurrence after now, with the month ends, of the rule from a first day on
  unfoldable pub next_occurrence : ℕ → Option ℕ
  unfolding target_day align
  next_occurrence start = occurrence start (w.after r.recurrence_rule start w.now)

  -- The recursion over excepted dates, with the calls that are left.
  unfoldable pub next_execution : ℕ → ℕ → Option ℕ
  unfolding next_occurrence is_excepted
  next_execution zero start = none
  next_execution (suc depth) start = elim (next_occurrence start) [
    | none ↦ none
    | some n ↦ elim (is_past r.end_date (w.day_of n)) [
      | true ↦ none
      | false ↦ elim (is_excepted r.exception_dates (w.day_of n)) [
        | true ↦ next_execution depth (w.day_of n)
        | false ↦ some n
      ]
    ]
  ]

  unfoldable pub calculate_next_execution : Option ℕ
  unfolding next_execution
  calculate_next_execution = next_execution max_exception_recursion r.start_date
