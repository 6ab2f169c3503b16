-- ===== src/Recurring/Laws/Later.antt =====
-- The next execution of a rule, where `after` gives instants after the one that it is called with.
use finvo.Prelude.{
  ℕ, zero, suc, ◌≡◌, refl, Bool, true, false, Option, none, some, Bool-cases, Option-cases, inl,
  inr, arith, ltb, ◌==◌, ◌+◌, if◌then◌else◌,
}
use finvo.Budget.Calendar.{month_days, ymd, ordinal}
use finvo.Budget.Range.{min}
use finvo.Prelude.Text.{Text}
use finvo.Recurring.Store.{Rule, World}
use finvo.Recurring.Schedule.{
  max_exception_recursion, is_excepted, target_day, is_past, earlier, align, aligned,
  next_occurrence, next_execution, calculate_next_execution,
}

-- `rrule.after(now, inc=False)` gives an occurrence after `now`, if any.
abbrev pub AfterIsLater : World → Type 0
AfterIsLater w =
    (rule : Text) (start now n : ℕ) → w.after rule start now ≡ some (some n) → ltb now n ≡ true

abbrev is_later : World → Option ℕ → Bool
is_later w none = true
is_later w (some n) = ltb w.now n

module _ (w : World) (r : Rule) where
  earlier-later :
      (next : Option ℕ) (t : ℕ)
      → ltb w.now t ≡ true
      → is_later w next ≡ true
      → is_later w (earlier next t) ≡ true
  earlier-later none t k h = k
  earlier-later (some n) t k h = elim (Bool-cases (ltb t n)) [
    | inl sooner ↦ rw sooner k
    | inr not_sooner ↦ rw not_sooner h
  ]

  -- one month of the loop
  step :
      (skipped past out : Bool) (rest next candidate : Option ℕ)
      → is_later w rest ≡ true
      → is_later w next ≡ true
      → (skipped ≡ false → is_later w candidate ≡ true)
      → is_later w
          (if skipped then rest else if past then next else if out then rest else candidate)
        ≡ true
  step true past out rest next candidate a b c = a
  step false true out rest next candidate a b c = b
  step false false true rest next candidate a b c = a
  step false false false rest next candidate a b c = c refl

  align-later :
      (target start left year month : ℕ) (next : Option ℕ)
      → is_later w next ≡ true
      → is_later w (align w r target start left year month next) ≡ true
  unfolding align
  align-later target start zero year month next h = h
  align-later target start (suc left) year month next h =
      let day = ordinal (ymd year month (min target (month_days year month))) in
      let rest =
        align-later target start left (if month == 12 then year + 1 else year)
          (if month == 12 then 1 else month + 1) next h in
      elim (Bool-cases (ltb w.now (w.midnight day))) [
        | inl ahead ↦
            step _ (is_past r.end_date day) (is_excepted r.exception_dates day) _ next _ rest h
              (λ b. earlier-later next (w.midnight day) ahead h)
        | inr behind ↦
            step _ (is_past r.end_date day) (is_excepted r.exception_dates day) _ next _ rest h
              (λ b. ground (arith, rw behind at (b)))
      ]

  aligned-later :
      (target : Option ℕ) (start : ℕ) (next : Option ℕ)
      → is_later w next ≡ true
      → is_later w (aligned w r target start next) ≡ true
  aligned-later none start next h = h
  aligned-later (some target) start next h = align-later target start 12 _ _ next h

  module _ (after_later : AfterIsLater w) where
    next_occurrence-later : (start : ℕ) → is_later w (next_occurrence w r start) ≡ true
    unfolding next_occurrence
    next_occurrence-later start = elim (Option-cases (w.after r.recurrence_rule start w.now)) [
      | inl raised ↦ rw raised refl
      | inr (none, found) ↦ rw found (aligned-later (target_day r.recurrence_rule) start none refl)
      | inr (some n, found) ↦ rw found (
          aligned-later (target_day r.recurrence_rule) start (some n)
            (after_later r.recurrence_rule start w.now n found))
    ]

    -- an instant after now, on a day that the rule has
    abbrev IsOpen : Option ℕ → Type 0
    IsOpen none = Unit
    IsOpen (some n) =
        (ltb w.now n ≡ true)
        × (is_past r.end_date (w.day_of n) ≡ false)
        × (is_excepted r.exception_dates (w.day_of n) ≡ false)

    next_execution-IsOpen : (depth start : ℕ) → IsOpen (next_execution w r depth start)
    unfolding next_execution
    next_execution-IsOpen zero start = tt
    next_execution-IsOpen (suc depth) start = elim (Option-cases (next_occurrence w r start)) [
      | inl never ↦ rw (never, next_execution, IsOpen) tt
      | inr (n, found) ↦ elim (Bool-cases (is_past r.end_date (w.day_of n))) [
        | inl past ↦ rw (found, past, next_execution, IsOpen) tt
        | inr going ↦ elim (Bool-cases (is_excepted r.exception_dates (w.day_of n))) [
          | inl out ↦
              rw (found, going, out, next_execution, IsOpen)
                (next_execution-IsOpen depth (w.day_of n))
          | inr kept ↦
              rw (found, going, kept, next_execution, IsOpen)
                (rw found at (next_occurrence-later start), going, kept)
        ]
      ]
    ]

-- The next execution of a rule, if there is one, is after now, on a day that is not past the end date
-- and not excepted, month ends included. `after` gives instants after the one that it is called with.
pub calculate_next_execution-open :
    (w : World) (r : Rule) (n : ℕ)
    → AfterIsLater w
    → calculate_next_execution w r ≡ some n
    → (ltb w.now n ≡ true)
      × (is_past r.end_date (w.day_of n) ≡ false)
      × (is_excepted r.exception_dates (w.day_of n) ≡ false)
unfolding calculate_next_execution
calculate_next_execution-open w r n later e =
    rw e at (next_execution-IsOpen w r later max_exception_recursion r.start_date)
