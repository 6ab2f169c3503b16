-- ===== src/Recurring/Jobs.antt =====
-- server/app/services/recurring_transaction_jobs.py: the run of the rules that are due.
use finvo.Prelude.{
  ℕ, Bool, true, false, ◌&&◌, Option, none, some, List, [], ◌∷◌, ◌++◌, ◌==◌, ltb, leb,
  if◌then◌else◌,
}
use finvo.Prelude.Int.{ℤ, abs}
use finvo.Prelude.Lists.{select, count, update_where}
use finvo.Prelude.Text.{upper}
use finvo.Prelude.Exec.{Outcome, ok, err, pure, raise, modify, or_raise, final, ◌>>=◌, ◌>>◌}
use finvo.Ledger.Model.{
  Transaction, TxType, expense, income, transfer, other_type, pending, confirmed, plus, Booking,
  LedgerError,
}
use finvo.Ledger.Convert.{convert_to_user_base}
use finvo.Ledger.Effects.{apply_transaction_balance_effect}
use finvo.Recurring.Store.{
  Rule, Generated, Tables, World, JobError, rate_unavailable, type_refused, Job,
}
use finvo.Recurring.Schedule.{calculate_next_execution}

abbrev pub as_job_error : {A : Type 0} → Outcome LedgerError A → Outcome JobError A
as_job_error (ok a) = ok a
as_job_error (err e) = err rate_unavailable

-- a call of the ledger service
abbrev pub booked : {A : Type 0} → Booking A → Job A
booked m s =
    let (result, accounts) = m s.accounts in (as_job_error result, record s { accounts = accounts })

abbrev pub first_account : Option ℕ → Option ℕ → Option ℕ
first_account (some k) other = some k
first_account none other = other

-- the call of the ledger service with two accounts
unfoldable pub apply_effect : World → Rule → Transaction → Option ℕ → Option ℕ → Job (Unit {0})
unfolding apply_transaction_balance_effect
apply_effect w r tx source target = booked (
    apply_transaction_balance_effect w.rates (w.base_currency r.user_uuid) tx r.user_uuid plus
      source target true true)

abbrev pub effect_by_type : World → Rule → Transaction → TxType → Job (Unit {0})
effect_by_type w r tx expense = apply_effect w r tx tx.source_account_id none
effect_by_type w r tx income =
    apply_effect w r tx none (first_account tx.target_account_id tx.source_account_id)
effect_by_type w r tx transfer = apply_effect w r tx tx.source_account_id tx.target_account_id
effect_by_type w r tx (other_type _) = pure tt

-- `_apply_recurring_balance_effect`
unfoldable pub apply_recurring_balance_effect : World → Rule → Transaction → Job (Unit {0})
unfolding apply_effect
apply_recurring_balance_effect w r tx = effect_by_type w r tx tx.tx_type

abbrev or_now : Option ℕ → ℕ → ℕ
or_now none now = now
or_now (some t) now = t

abbrev pub made : World → Rule → ℤ × ℤ → Generated
made w r converted = record {
  tx = record {
    uuid = w.new_uuid;
    user_uuid = r.user_uuid;
    tx_type = r.tx_type;
    status = if r.requires_confirmation then pending else confirmed;
    amount = w.quantize converted.0;
    amount_original = r.amount;
    currency = upper r.currency;
    exchange_rate = some converted.1;
    source_account_id = r.source_account_id;
    target_account_id = r.target_account_id;
  };
  recurring_transaction_id = some r.uuid;
  transaction_at = or_now r.next_execution_at w.now;
}

-- the table's constraint on types
abbrev pub check_type : TxType → Job (Unit {0})
check_type (other_type _) = raise type_refused
check_type expense = pure tt
check_type income = pure tt
check_type transfer = pure tt

-- `if status == "CONFIRMED": ...`
abbrev pub effect_unless_pending : World → Rule → Transaction → Job (Unit {0})
effect_unless_pending w r tx =
    if r.requires_confirmation then pure tt else apply_recurring_balance_effect w r tx

-- `_create_transaction_from_recurring`
unfoldable pub create_transaction_from_recurring : World → Rule → Job (Unit {0})
unfolding convert_to_user_base apply_recurring_balance_effect
create_transaction_from_recurring w r = do
  converted ←
      or_raise
        (convert_to_user_base w.rates w.rate w.one (abs r.amount) (upper r.currency)
          (w.base_currency r.user_uuid))
        rate_unavailable
  modify (λ s. record s { transactions = s.transactions ++ made w r converted ∷ [] })
  check_type r.tx_type
  effect_unless_pending w r (made w r converted).tx

abbrev pub is_rule : Option ℕ → ℕ → Bool
is_rule none k = false
is_rule (some j) k = j == k

-- the transactions of a rule at a time
abbrev pub generated_at : ℕ → ℕ → Generated → Bool
generated_at k t g = is_rule g.recurring_transaction_id k && g.transaction_at == t

-- `_already_generated`
abbrev pub already_generated : Rule → Tables → Bool
already_generated r s = elim r.next_execution_at [
  | none ↦ false
  | some t ↦ ltb 0 (count (generated_at r.uuid t) s.transactions)
]

abbrev pub rescheduled : Option ℕ → Rule → Rule
rescheduled none x = record x { next_execution_at = none; is_active = false }
rescheduled (some t) x = record x { next_execution_at = some t }

-- `_update_next_execution`
unfoldable pub update_next_execution : World → Rule → Job (Unit {0})
unfolding calculate_next_execution
update_next_execution w r = modify (λ s. record s {
  rules = update_where (λ x. x.uuid == r.uuid) (rescheduled (calculate_next_execution w r)) s.rules;
})

abbrev pub generate : World → Rule → Job (Unit {0})
generate w r = create_transaction_from_recurring w r >> update_next_execution w r

-- `async with db.begin_nested(): ...` for one rule, and the `except` that logs: a raise rolls the
-- savepoint back.
abbrev pub kept_or : Tables → Outcome JobError (Unit {0}) → Tables → Tables
kept_or s (ok _) s' = s'
kept_or s (err _) s' = s

unfoldable pub process_item : World → Rule → Tables → Tables
unfolding create_transaction_from_recurring update_next_execution
process_item w r s =
    if already_generated r s
    then final (update_next_execution w r s)
    else (let (result, s') = generate w r s in kept_or s result s')

unfoldable pub process_all : World → List Rule → Tables → Tables
unfolding process_item
process_all w [] s = s
process_all w (r ∷ rest) s = process_all w rest (process_item w r s)

abbrev is_reached : Option ℕ → ℕ → Bool
is_reached none now = false
is_reached (some t) now = leb t now

abbrev pub is_due : World → Rule → Bool
is_due w r = r.is_active && is_reached r.next_execution_at w.now

unfoldable pub process_due_transactions : World → Tables → Tables
unfolding process_all
process_due_transactions w s = process_all w (select (is_due w) s.rules) s
