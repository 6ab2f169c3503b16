-- ===== src/Recurring/Laws.antt =====
-- What a run of the job keeps, and what an excepted date does to a rule.
use finvo.Prelude.{
  ℕ, zero, suc, ◌≤◌, ◌≡◌, refl, Bool, true, false, ◌&&◌, Option, none, some, List, [], ◌∷◌, ◌++◌,
  Bool-cases, Option-cases, inl, inr, arith,
}
use finvo.Prelude.Lists.{select, count, count-append}
use finvo.Prelude.Int.{ℤ, abs}
use finvo.Prelude.Text.{upper}
use finvo.Prelude.Exec.{Outcome, ok, err, final, Keeps, Keeps-bind, ◌>>◌}
use finvo.Ledger.Model.{Transaction, TxType, expense, income, transfer, other_type}
use finvo.Ledger.Convert.{convert_to_user_base}
use finvo.Recurring.Store.{Rule, Tables, World, JobError}
use finvo.Recurring.Schedule.{
  max_exception_recursion, is_excepted, target_day, is_past, next_occurrence, next_execution,
  calculate_next_execution,
}
use finvo.Recurring.Jobs.{
  apply_effect, effect_by_type, apply_recurring_balance_effect, check_type, effect_unless_pending,
  made, create_transaction_from_recurring, generated_at, already_generated, rescheduled,
  update_next_execution, generate, kept_or, process_item, process_all, is_due,
  process_due_transactions,
}
pub mod Guards
pub mod Sound
pub mod Stored
pub mod Later
pub mod Advance
pub mod Handled

-- A rule has at most one transaction for a time.
abbrev pub OnceEach : Tables → Type 0
OnceEach s = (k t : ℕ) → count (generated_at k t) s.transactions ≤ 1

Keeps-apply_effect :
    (w : World) (r : Rule) (tx : Transaction) (source target : Option ℕ)
    → Keeps OnceEach (apply_effect w r tx source target)
unfolding apply_effect
Keeps-apply_effect w r tx source target s h = h

Keeps-by_type :
    (w : World) (r : Rule) (tx : Transaction) (k : TxType)
    → Keeps OnceEach (effect_by_type w r tx k)
Keeps-by_type w r tx expense = Keeps-apply_effect w r tx tx.source_account_id none
Keeps-by_type w r tx income = Keeps-apply_effect w r tx none _
Keeps-by_type w r tx transfer = Keeps-apply_effect w r tx tx.source_account_id tx.target_account_id
Keeps-by_type w r tx (other_type _) = λ s h. h

Keeps-effect :
    (w : World) (r : Rule) (tx : Transaction) → Keeps OnceEach (effect_unless_pending w r tx)
unfolding apply_recurring_balance_effect
Keeps-effect w r tx s h = elim (Bool-cases r.requires_confirmation) [
  | inl later ↦ rw later h
  | inr now ↦ rw now (Keeps-by_type w r tx tx.tx_type s h)
]

Keeps-check : (k : TxType) → Keeps OnceEach (check_type k)
Keeps-check expense s h = h
Keeps-check income s h = h
Keeps-check transfer s h = h
Keeps-check (other_type t) s h = h

Keeps-update : (w : World) (r : Rule) → Keeps OnceEach (update_next_execution w r)
unfolding update_next_execution
Keeps-update w r s h = h

-- the insertion of a transaction for a time that has none
OnceEach-made :
    (w : World) (r : Rule) (c : ℤ × ℤ) (t0 : ℕ) (s : Tables)
    → r.next_execution_at ≡ some t0
    → count (generated_at r.uuid t0) s.transactions ≡ 0
    → OnceEach s
    → OnceEach (record s { transactions = s.transactions ++ made w r c ∷ [] })
unfolding count
OnceEach-made w r c t0 s e free h k t = elim (Bool-cases (generated_at k t (made w r c))) [
  | inl mine ↦
      let a : r.uuid ≡ k = ground arith in
      let b : t0 ≡ t = ground arith in
      ground
        (arith, count-append (generated_at k t) s.transactions (made w r c ∷ []), free_there a b)
  | inr other ↦
      ground (arith, count-append (generated_at k t) s.transactions (made w r c ∷ []), h k t)
]
  where
    free_there : r.uuid ≡ k → t0 ≡ t → count (generated_at k t) s.transactions ≡ 0
    free_there a b = cc

create-OnceEach :
    (w : World) (r : Rule) (t0 : ℕ) (s : Tables)
    → r.next_execution_at ≡ some t0
    → count (generated_at r.uuid t0) s.transactions ≡ 0
    → OnceEach s
    → OnceEach (final (generate w r s))
unfolding create_transaction_from_recurring
create-OnceEach w r t0 s e free h =
    elim (Option-cases (
      convert_to_user_base w.rates w.rate w.one (abs r.amount) (upper r.currency)
        (w.base_currency r.user_uuid))) [
          | inl unavailable ↦ rw unavailable h
          | inr (c, found) ↦ rw found (
              Keeps-bind OnceEach
                (check_type r.tx_type >> effect_unless_pending w r (made w r c).tx) _
                (Keeps-bind OnceEach (check_type r.tx_type) _ (Keeps-check r.tx_type)
                  (λ _. Keeps-effect w r (made w r c).tx))
                (λ _. Keeps-update w r) _ (OnceEach-made w r c t0 s e free h))
        ]

-- the rule has a time at which it is due
abbrev Scheduled : Rule → Type 0
Scheduled r = (t : ℕ) × (r.next_execution_at ≡ some t)

process_item-OnceEach :
    (w : World) (r : Rule) (s : Tables) → Scheduled r → OnceEach s → OnceEach (process_item w r s)
unfolding process_item
process_item-OnceEach w r s (t0, e) h = elim (Bool-cases (already_generated r s)) [
  | inl there ↦ rw there (Keeps-update w r s h)
  | inr fresh ↦
      let free : count (generated_at r.uuid t0) s.transactions ≡ 0 =
        ground (arith, rw e at (fresh)) in
      rw fresh (of_result (generate w r s).0 (generate w r s).1 (create-OnceEach w r t0 s e free h))
]
  where
    of_result :
        (result : Outcome JobError (Unit {0})) (s' : Tables)
        → OnceEach s'
        → OnceEach (kept_or s result s')
    of_result (ok u) s' h' = h'
    of_result (err x) s' h' = h

abbrev AllScheduled : List Rule → Type 0
AllScheduled [] = Unit
AllScheduled (r ∷ rest) = Scheduled r × AllScheduled rest

process_all-OnceEach :
    (w : World) (rs : List Rule) (s : Tables)
    → AllScheduled rs
    → OnceEach s
    → OnceEach (process_all w rs s)
unfolding process_all
process_all-OnceEach w [] s a h = h
process_all-OnceEach w (r ∷ rs) s a h =
    process_all-OnceEach w rs (process_item w r s) a.1 (process_item-OnceEach w r s a.0 h)

due-Scheduled : (w : World) (r : Rule) → is_due w r ≡ true → Scheduled r
due-Scheduled w r h = elim (Option-cases r.next_execution_at) [
  | inl never ↦ let h' = rw never at h in absurd_due r.is_active h'
  | inr found ↦ found
]
  where
    absurd_due : (b : Bool) → (b && false) ≡ true → Scheduled r
    absurd_due true h = cc
    absurd_due false h = cc

select-AllScheduled : (w : World) (rs : List Rule) → AllScheduled (select (is_due w) rs)
unfolding select
select-AllScheduled w [] = tt
select-AllScheduled w (r ∷ rs) = elim (Bool-cases (is_due w r)) [
  | inl due ↦ rw due (due-Scheduled w r due, select-AllScheduled w rs)
  | inr not_due ↦ rw not_due (select-AllScheduled w rs)
]

-- A run of the job makes no second transaction of a rule for a time: where each rule has at most one
-- transaction for a time, it has at most one after the run, whichever rules are due and whichever of
-- them fail.
pub process_due_transactions-OnceEach :
    (w : World) (s : Tables) → OnceEach s → OnceEach (process_due_transactions w s)
unfolding process_due_transactions
process_due_transactions-OnceEach w s h =
    process_all-OnceEach w (select (is_due w) s.rules) s (select-AllScheduled w s.rules) h

excepted_chain :
    (w : World) (r : Rule) (n depth start : ℕ)
    → next_occurrence w r start ≡ some n
    → next_occurrence w r (w.day_of n) ≡ some n
    → is_excepted r.exception_dates (w.day_of n) ≡ true
    → next_execution w r depth start ≡ none
unfolding next_execution
excepted_chain w r n zero start here again out = refl
excepted_chain w r n (suc depth) start here again out =
    elim (Bool-cases (is_past r.end_date (w.day_of n))) [
      | inl past ↦ rw (here, next_execution) (rw (past, next_execution) refl)
      | inr not_past ↦
          rw (here, not_past, out, next_execution)
            (excepted_chain w r n depth (w.day_of n) again again out)
    ]

-- If the next occurrence of a rule, at the instant `n`, falls on an excepted date, and the rule begun
-- on that date has the same next occurrence, then no next execution is found and the rule is switched
-- off, whatever occurrences follow. The rule has no day after the 28th of the month.
pub calculate_next_execution-excepted :
    (w : World) (r : Rule) (n : ℕ)
    → target_day r.recurrence_rule ≡ none
    → w.after r.recurrence_rule r.start_date w.now ≡ some (some n)
    → w.after r.recurrence_rule (w.day_of n) w.now ≡ some (some n)
    → is_excepted r.exception_dates (w.day_of n) ≡ true
    → (calculate_next_execution w r ≡ none)
      × ((rescheduled (calculate_next_execution w r) r).is_active ≡ false)
unfolding calculate_next_execution next_occurrence
calculate_next_execution-excepted w r n plain here again out =
    let first : next_occurrence w r r.start_date ≡ some n = rw (here, plain) refl in
    let second : next_occurrence w r (w.day_of n) ≡ some n = rw (again, plain) refl in
    let none_found = excepted_chain w r n max_exception_recursion r.start_date first second out in
    rw none_found (refl, refl)
