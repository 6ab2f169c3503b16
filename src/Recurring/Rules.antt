-- ===== src/Recurring/Rules.antt =====
-- Creation, update and deletion of rules in server/app/services/transaction/recurring_service.py.
-- The keys of a request are fields: in an update a field is `none` where the key is missing, and a key
-- that may be null is an option of its own. Dates, identifiers and amounts are parsed before; the
-- columns that only store a value (amount type, category, tags, description) are left out.
use finvo.Prelude.{
  ℕ, Bool, true, false, not, ◌&&◌, ◌||◌, Option, none, some, List, [], ◌∷◌, ◌++◌, ◌==◌,
  if◌then◌else◌,
}
use finvo.Prelude.Int.{ℤ, pos, ltb_ℤ}
use finvo.Prelude.Lists.{select, delete_where, update_where}
use finvo.Prelude.Text.{Text, codes, or_text}
use finvo.Prelude.Exec.{Exec, Outcome, pure, gets, modify, raise_if, ◌>>=◌, ◌>>◌}
use finvo.Ledger.Model.{TxType}
use finvo.Ledger.Expected.{default_currency}
use finvo.Recurring.Store.{Rule, Generated, Tables, World}
use finvo.Recurring.Schedule.{calculate_next_execution}
use finvo.Recurring.Jobs.{is_rule}
use finvo.Recurring.Validation.{
  RuleError, validation_error, null_timezone, validate_recurrence_rule, validate_transaction_type,
}

-- `rrulestr`, the users' time zones, the calendar of a time zone by its name, and a new identifier
pub record Site : Type 0 where
  pub parses : Text → Bool
  pub user_timezone : ℕ → Option Text
  pub world : Text → World
  pub new_rule_uuid : ℕ

pub record Draft : Type 0 where
  pub tx_type : Text
  pub source_account_id : Option ℕ
  pub target_account_id : Option ℕ
  pub requires_confirmation : Bool
  pub amount : ℤ
  pub currency : Option Text
  pub recurrence_rule : Text
  pub timezone : Option Text
  pub start_date : ℕ
  pub end_date : Option ℕ
  pub exception_dates : List ℕ
  pub is_active : Bool

pub record Patch : Type 0 where
  pub tx_type : Option Text
  pub source_account_id : Option (Option ℕ)
  pub target_account_id : Option (Option ℕ)
  pub requires_confirmation : Option Bool
  pub amount : Option ℤ
  pub currency : Option Text
  pub recurrence_rule : Option Text
  pub timezone : Option (Option Text)
  pub start_date : Option ℕ
  pub end_date : Option (Option ℕ)
  pub exception_dates : Option (List ℕ)
  pub is_active : Option Bool

abbrev pub Serve : Type 0 → Type 0
Serve A = Exec Tables RuleError A

abbrev pub lift : {A : Type 0} → Outcome RuleError A → Serve A
lift o s = (o, s)

abbrev pub is_present : {A : Type 0} → Option A → Bool
is_present none = false
is_present (some a) = true

-- the value of a key, or the column as it is
abbrev pub given_or : {A : Type 0} → Option A → A → A
given_or none old = old
given_or (some new) old = new

-- the column's default takes the place of a missing value
abbrev pub default_timezone : Text
default_timezone = codes "Asia/Shanghai"

-- `data.get("timezone") or await self._get_user_timezone(user_uuid) or "UTC"`
abbrev pub rule_timezone : Site → ℕ → Option Text → Text
rule_timezone site u asked = or_text asked (or_text (site.user_timezone u) (codes "UTC"))

abbrev pub drafted : Site → ℕ → Draft → TxType → Rule
drafted site u q k = record {
  uuid = site.new_rule_uuid;
  user_uuid = u;
  tx_type = k;
  source_account_id = q.source_account_id;
  target_account_id = q.target_account_id;
  requires_confirmation = q.requires_confirmation;
  amount = q.amount;
  currency = or_text q.currency default_currency;
  recurrence_rule = q.recurrence_rule;
  timezone = given_or q.timezone default_timezone;
  start_date = q.start_date;
  end_date = q.end_date;
  exception_dates = q.exception_dates;
  next_execution_at = none;
  is_active = q.is_active;
}

abbrev pub new_rule : Site → ℕ → Draft → TxType → Rule
new_rule site u q k =
    let r = drafted site u q k in
    record r {
      next_execution_at = calculate_next_execution (site.world (rule_timezone site u q.timezone)) r;
    }

unfoldable pub create_recurring_transaction : Site → ℕ → Draft → Serve Rule
unfolding validate_recurrence_rule validate_transaction_type calculate_next_execution
create_recurring_transaction site u q = do
  lift (validate_recurrence_rule site.parses q.recurrence_rule)
  k ← lift (validate_transaction_type q.tx_type)
  raise_if (not (ltb_ℤ (pos 0) q.amount)) validation_error
  modify (λ s. record s { rules = s.rules ++ new_rule site u q k ∷ [] })
  pure (new_rule site u q k)

-- `_get_owned`
abbrev pub is_owned : ℕ → ℕ → Rule → Bool
is_owned k u r = r.uuid == k && r.user_uuid == u

abbrev pub validate_given : {A B : Type 0} → (A → Outcome RuleError B) → Option A → Serve (Unit {0})
validate_given check none = pure tt
validate_given check (some a) = lift (check a) >> pure tt

abbrev pub amount_refused : Option ℤ → Bool
amount_refused none = false
amount_refused (some x) = not (ltb_ℤ (pos 0) x)

abbrev pub nulled : Option (Option Text) → Bool
nulled none = false
nulled (some none) = true
nulled (some (some t)) = false

abbrev pub zone_or : Option (Option Text) → Text → Text
zone_or (some (some t)) old = t
zone_or _ old = old

-- the columns that a request changes
abbrev pub patched : Patch → Rule → Rule
patched q r = record r {
  amount = given_or q.amount r.amount;
  source_account_id = given_or q.source_account_id r.source_account_id;
  target_account_id = given_or q.target_account_id r.target_account_id;
  start_date = given_or q.start_date r.start_date;
  end_date = given_or q.end_date r.end_date;
  requires_confirmation = given_or q.requires_confirmation r.requires_confirmation;
  currency = given_or q.currency r.currency;
  recurrence_rule = given_or q.recurrence_rule r.recurrence_rule;
  timezone = zone_or q.timezone r.timezone;
  exception_dates = given_or q.exception_dates r.exception_dates;
  is_active = given_or q.is_active r.is_active;
}

abbrev pub should_recalculate : Patch → Bool
should_recalculate q =
    is_present q.recurrence_rule
    || is_present q.start_date
    || is_present q.end_date
    || is_present q.exception_dates
    || is_present q.is_active

abbrev pub recalculated : Site → Patch → Rule → Rule
recalculated site q r =
    if should_recalculate q && r.is_active
    then record r { next_execution_at = calculate_next_execution (site.world r.timezone) r }
    else if not r.is_active
    then record r { next_execution_at = none }
    else r

-- The attributes are assigned in the session, so they are written with the flush, which refuses a
-- time zone that is null.
abbrev pub update_owned : Site → ℕ → ℕ → Patch → List Rule → Serve (Option Rule)
update_owned site k u q [] = pure none
update_owned site k u q (r ∷ rest) = do
  validate_given (validate_recurrence_rule site.parses) q.recurrence_rule
  validate_given validate_transaction_type q.tx_type
  raise_if (amount_refused q.amount) validation_error
  raise_if (nulled q.timezone) null_timezone
  modify (λ s. record s {
    rules = update_where (is_owned k u) (λ x. recalculated site q (patched q x)) s.rules;
  })
  pure (some (recalculated site q (patched q r)))

unfoldable pub update_recurring_transaction : Site → ℕ → ℕ → Patch → Serve (Option Rule)
unfolding validate_recurrence_rule validate_transaction_type calculate_next_execution
update_recurring_transaction site k u q = do
  found ← gets (λ s. select (is_owned k u) s.rules)
  update_owned site k u q found

-- ON DELETE SET NULL
abbrev pub unlinked : Generated → Generated
unlinked g = record g { recurring_transaction_id = none }

abbrev pub of_rule : ℕ → Generated → Bool
of_rule k g = is_rule g.recurring_transaction_id k

abbrev pub delete_owned : ℕ → ℕ → List Rule → Serve Bool
delete_owned k u [] = pure false
delete_owned k u (r ∷ rest) = do
  modify (λ s. record s {
    rules = delete_where (is_owned k u) s.rules;
    transactions = update_where (of_rule k) unlinked s.transactions;
  })
  pure true

unfoldable pub delete_recurring_transaction : ℕ → ℕ → Serve Bool
delete_recurring_transaction k u = do
  found ← gets (λ s. select (is_owned k u) s.rules)
  delete_owned k u found
