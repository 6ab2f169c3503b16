-- ===== src/Recurring/Tests.antt =====
-- A rule for the rent, run on the day it is due and on a day that is excepted.
use finvo.Prelude.{
  ◌||◌, ◌&&◌, ℕ, ◌==◌, ◌+◌, ◌≡◌, refl, true, false, Option, none, some, List, [], ltb, ◌∷◌, leb,
  if◌then◌else◌, arith, map,
}
use finvo.Prelude.Int.{pos}
use finvo.Prelude.Lists.{all, select, count, update_where, length}
use finvo.Prelude.Text.{Text, codes, text_eq, upper, or_text}
use finvo.Ledger.Model.{expense, FinancialAccount}
use finvo.Ledger.Effects.{apply_account_balance_effect, convert_snapshot_amount}
use finvo.Ledger.Convert.{convert_to_user_base, convert_snapshot_to_currency}
use finvo.Recurring.Store.{Rule, Tables, World}
use finvo.Recurring.Schedule.{is_excepted, target_day, calculate_next_execution}
use finvo.Recurring.Jobs.{is_due, rescheduled, process_due_transactions}
use finvo.Recurring.Validation.{validate_recurrence_rule}
use finvo.Prelude.Exec.{final}
use finvo.Recurring.Rules.{
  Site, Draft, Patch, create_recurring_transaction, update_recurring_transaction,
}
use finvo.Recurring.Laws.Sound.{is_sound}
use finvo.Recurring.Laws.Stored.{
  Request, create, update, delete, run, serve_all, serve_all-IsSound,
  update_recurring_transaction-types,
}
use finvo.Recurring.Laws.Advance.{always_succeeds}
use finvo.Recurring.Laws.Later.{AfterIsLater, calculate_next_execution-open}
use finvo.Recurring.Laws.{
  OnceEach, process_due_transactions-OnceEach, calculate_next_execution-excepted,
}

abbrev cny : Text
cny = codes "CNY"

abbrev daily : Text
daily = codes "FREQ=DAILY"

-- every day occurs from the first day on; an instant is a day
abbrev every_day : Text → ℕ → ℕ → Option (Option ℕ)
every_day rule start now = some (some (if leb start now then now + 1 else start))

abbrev world : World
world = record {
  now = 1000;
  day_of = λ t. t;
  midnight = λ d. d;
  after = every_day;
  rates = record { live = λ from to x. some x; quot = λ a b. a; prod = λ a b. a };
  rate = λ from to. none;
  one = pos 1;
  quantize = λ x. x;
  base_currency = λ u. cny;
  new_uuid = 50;
}

abbrev rent : Rule
rent = record {
  uuid = 3;
  user_uuid = 9;
  tx_type = expense;
  source_account_id = some 1;
  target_account_id = none;
  requires_confirmation = false;
  amount = pos 100;
  currency = cny;
  recurrence_rule = daily;
  timezone = codes "Asia/Shanghai";
  start_date = 900;
  end_date = none;
  exception_dates = [];
  next_execution_at = some 1000;
  is_active = true;
}

abbrev wallet : FinancialAccount
wallet = record {
  user_uuid = 9;
  currency_code = cny;
  initial_balance = pos 1000;
  current_balance = pos 1000;
}

abbrev due : Tables
due = record {
  rules = rent ∷ [];
  transactions = [];
  accounts = λ k. if k == 1 then some wallet else none;
}

due-OnceEach : OnceEach due
unfolding count
due-OnceEach k t = omega arith

process_due_transactions-OnceEach_example : OnceEach (process_due_transactions world due)
process_due_transactions-OnceEach_example = process_due_transactions-OnceEach world due due-OnceEach

-- One transaction is made, and the rule waits for the next day.
run_makes_one :
    (length (process_due_transactions world due).transactions ≡ 1)
    × (map (λ r. r.next_execution_at) (process_due_transactions world due).rules ≡ some 1001 ∷ [])
unfolding process_due_transactions select count text_eq upper apply_account_balance_effect
    convert_snapshot_amount convert_snapshot_to_currency or_text update_where
run_makes_one = (refl, refl)

-- the rent is not due tomorrow
abbrev holiday : Rule
holiday = record rent { exception_dates = 1001 ∷ [] }

plain : target_day daily ≡ none
unfolding target_day upper
plain = refl

tomorrow_out : is_excepted (1001 ∷ []) 1001 ≡ true
unfolding is_excepted
tomorrow_out = refl

calculate_next_execution-excepted_example :
    (calculate_next_execution world holiday ≡ none)
    × ((rescheduled (calculate_next_execution world holiday) holiday).is_active ≡ false)
calculate_next_execution-excepted_example =
    calculate_next_execution-excepted world holiday 1001 plain refl refl tomorrow_out

next_day : calculate_next_execution world rent ≡ some 1001
unfolding calculate_next_execution target_day upper is_excepted
next_day = refl

every_day-later : AfterIsLater world
every_day-later rule start now n h = ground arith

calculate_next_execution-open_example : (ltb 1000 1001 ≡ true) × (false ≡ false) × (false ≡ false)
unfolding is_excepted
calculate_next_execution-open_example =
    calculate_next_execution-open world rent 1001 every_day-later next_day

-- Days begin five hours later in New York.
abbrev site : Site
site = record {
  parses = λ t. true;
  user_timezone = λ u. some (codes "America/New_York");
  world =
      λ zone. if text_eq zone (codes "Asia/Shanghai") then world else record world { now = 995 };
  new_rule_uuid = 4;
}

abbrev salary : Draft
salary = record {
  tx_type = codes "income";
  source_account_id = none;
  target_account_id = some 1;
  requires_confirmation = false;
  amount = pos 500;
  currency = none;
  recurrence_rule = daily;
  timezone = none;
  start_date = 900;
  end_date = none;
  exception_dates = [];
  is_active = true;
}

abbrev unchanged : Patch
unchanged = record {
  tx_type = none;
  source_account_id = none;
  target_account_id = none;
  requires_confirmation = none;
  amount = none;
  currency = none;
  recurrence_rule = none;
  timezone = none;
  start_date = none;
  end_date = none;
  exception_dates = none;
  is_active = none;
}

abbrev reactivation : Patch
reactivation = record unchanged { is_active = some true }

abbrev retyping : Patch
retyping = record unchanged { tx_type = some (codes "TRANSFER"); amount = some (pos 700) }

abbrev requests : List Request
requests = create 4 9 salary ∷ update 4 9 retyping ∷ run world ∷ delete 3 9 ∷ []

due_sound : all (is_sound site.parses) due.rules ≡ true
unfolding all validate_recurrence_rule text_eq
due_sound = refl

serve_all-IsSound_example : all (is_sound site.parses) (serve_all site requests due).rules ≡ true
serve_all-IsSound_example = serve_all-IsSound site requests due due_sound

update_recurring_transaction-types_example :
    map (λ r. r.tx_type) (final (update_recurring_transaction site 3 9 retyping due)).rules
    ≡ map (λ r. r.tx_type) due.rules
update_recurring_transaction-types_example =
    update_recurring_transaction-types site 3 9 retyping due

-- The rule of a user in New York is stored under Shanghai, where a later update reschedules it.
reactivated :
    (map (λ r. r.next_execution_at) (serve_all site (create 4 9 salary ∷ []) due).rules
      ≡ some 1000 ∷ some 996 ∷ [])
    × (map
          (λ r. r.next_execution_at)
          (serve_all site (create 4 9 salary ∷ update 4 9 reactivation ∷ []) due).rules
        ≡ some 1000 ∷ some 1001 ∷ [])
unfolding serve_all create_recurring_transaction update_recurring_transaction select update_where
    or_text
reactivated = (refl, refl)

-- a rule whose transactions wait, beside one that is booked at once
abbrev two_due : Tables
two_due = record due { rules = record rent { uuid = 5; requires_confirmation = true } ∷ due.rules }

-- The rule that waits is due and succeeds for sure before the run.
waiting_due :
    all (λ r. is_due world r && (always_succeeds world r || r.uuid == 3)) two_due.rules ≡ true
unfolding all upper text_eq convert_to_user_base
waiting_due = refl
