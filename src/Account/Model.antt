-- ===== src/Account/Model.antt =====
-- The rows of server/app/models/financial_account.py with their status, and the tables that the
-- lifecycle of an account touches. A status or a nature is one of the values that the table allows.
use finvo.Prelude.{ℕ, Bool, true, false, ◌||◌, Option, none, some, List, map, ◌==◌, if◌then◌else◌}
use finvo.Prelude.Int.{ℤ}
use finvo.Prelude.Lists.{count}
use finvo.Prelude.Text.{Text, codes, upper, or_text, text_eq}
use finvo.Prelude.Exec.{Exec}
use finvo.Ledger.Model.{FinancialAccount, Transaction}
use finvo.Ledger.Expected.{refers}
use finvo.Records.Store.{Entry}
use finvo.Records.Creation.{CreateError}
use finvo.Recurring.Store.{Rule}

pub data AccountNature : Type 0 where
  asset liability : AccountNature

pub data AccountStatus : Type 0 where
  active inactive closed : AccountStatus

-- the columns that balances depend on are those of `FinancialAccount`
pub record Account : Type 0 where
  pub row : FinancialAccount
  pub name : Text
  pub nature : AccountNature
  pub account_type : Option Text
  pub include_in_net_worth : Bool
  pub include_in_cash_flow : Bool
  pub status : AccountStatus

-- the keys that a payload has
pub record AccountData : Type 0 where
  pub id : Option ℕ
  pub name : Option Text
  pub nature : Option AccountNature
  pub account_type : Option (Option Text)
  pub currency_code : Option Text
  pub initial_balance : Option ℤ
  pub current_balance : Option ℤ
  pub include_in_net_worth : Option Bool
  pub include_in_cash_flow : Option Bool
  pub status : Option Text

-- The newest transaction is the first.
pub record Store : Type 0 where
  pub accounts : ℕ → Option Account
  pub transactions : List Entry
  pub rules : List Rule

pub data AccountError : Type 0 where
  invalid_status use_close missing_name account_not_found : AccountError
  closed_has_history referenced balance_not_zero : AccountError
  merge_self currency_mismatch nature_mismatch merge_closed_target : AccountError
  already_closed recurring_active target_required target_not_found target_closed : AccountError
  target_currency_mismatch unknown_disposal : AccountError
  not_created : CreateError → AccountError

abbrev pub Lifecycle : Type 0 → Type 0
Lifecycle A = Exec Store AccountError A

-- `_normalize_account_status`
unfoldable pub normalize_account_status : Text → Option AccountStatus
normalize_account_status value =
    let status = upper (or_text (some value) (codes "ACTIVE")) in
    if text_eq status (codes "ACTIVE")
    then some active
    else if text_eq status (codes "INACTIVE")
    then some inactive
    else if text_eq status (codes "CLOSED")
    then some closed
    else none

abbrev pub is_closed : AccountStatus → Bool
is_closed closed = true
is_closed active = false
is_closed inactive = false

abbrev pub is_active : AccountStatus → Bool
is_active active = true
is_active closed = false
is_active inactive = false

abbrev pub same_nature : AccountNature → AccountNature → Bool
same_nature asset asset = true
same_nature liability liability = true
same_nature asset liability = false
same_nature liability asset = false

-- `SELECT ... WHERE uuid = account_id AND user_uuid = user_uuid`
abbrev pub of_user : ℕ → Option Account → Option Account
of_user user_uuid none = none
of_user user_uuid (some a) = if a.row.user_uuid == user_uuid then some a else none

abbrev pub set_account : ℕ → Option Account → Store → Store
set_account k a s = record s { accounts = λ j. if k == j then a else s.accounts j }

abbrev pub linked_tx : ℕ → Entry → Bool
linked_tx k e = refers k e.tx.source_account_id || refers k e.tx.target_account_id

abbrev pub linked_rule : ℕ → Rule → Bool
linked_rule k r = refers k r.source_account_id || refers k r.target_account_id

-- `count_account_references`
unfoldable pub count_account_references : Store → ℕ → ℕ × ℕ
count_account_references s k = (count (linked_tx k) s.transactions, count (linked_rule k) s.rules)

-- a reference to `i` becomes `r`
abbrev pub redirect : ℕ → Option ℕ → Option ℕ → Option ℕ
redirect i r none = none
redirect i r (some k) = if k == i then r else some k

abbrev pub redirect_tx : ℕ → Option ℕ → Transaction → Transaction
redirect_tx i r tx = record tx {
  source_account_id = redirect i r tx.source_account_id;
  target_account_id = redirect i r tx.target_account_id;
}

abbrev pub redirect_entry : ℕ → Option ℕ → Entry → Entry
redirect_entry i r e = record e { tx = redirect_tx i r e.tx }

abbrev pub redirect_rule : ℕ → Option ℕ → Rule → Rule
redirect_rule i r rule = record rule {
  source_account_id = redirect i r rule.source_account_id;
  target_account_id = redirect i r rule.target_account_id;
}

-- `DELETE` of an account; the references that remain are set to NULL.
abbrev pub delete_account : ℕ → Store → Store
delete_account i s = record (set_account i none s) {
  transactions = map (redirect_entry i none) s.transactions;
  rules = map (redirect_rule i none) s.rules;
}
