-- ===== src/Account/Lifecycle.antt =====
-- The operations on accounts of server/app/services/user_service.py: create, save, update, delete and
-- merge. A payload's amounts are parsed; the identifier of a new row is an argument, and so are the
-- rates and the user's base currency.
use finvo.Prelude.{
  ℕ, Bool, true, false, not, ◌||◌, Option, none, some, List, [], ◌∷◌, map, ltb, ◌==◌, if◌then◌else◌,
}
use finvo.Prelude.Int.{ℤ, pos, ◌+ℤ◌, ◌-ℤ◌, is_zero}
use finvo.Prelude.Lists.{update_where}
use finvo.Prelude.Text.{Text, upper, or_text, text_eq}
use finvo.Prelude.Exec.{pure, gets, modify, or_raise, raise_if, ◌>>=◌, ◌>>◌}
use finvo.Ledger.Model.{FinancialAccount, Rates}
use finvo.Ledger.Expected.{recompute_account_balance, default_currency}
use finvo.Account.Model.{
  Account, AccountData, AccountStatus, active, asset, Store, Lifecycle, invalid_status, use_close,
  missing_name, account_not_found, closed_has_history, referenced, balance_not_zero, merge_self,
  currency_mismatch, nature_mismatch, merge_closed_target, normalize_account_status, is_closed,
  same_nature, of_user, set_account, count_account_references, redirect_entry, redirect_rule,
  delete_account,
}

-- `data.get(key, d)`
abbrev pub get_or : {A : Type 0} → Option A → A → A
get_or none d = d
get_or (some a) d = a

-- the status of a payload, ACTIVE without one; `none` is a status that the check refuses
abbrev pub status_of : Option Text → Option AccountStatus
status_of none = some active
status_of (some value) = normalize_account_status value

-- the row of a new account
unfoldable pub new_account : ℕ → AccountData → Text → AccountStatus → Bool → Account
new_account user_uuid q name status in_cash_flow = record {
  row = record {
    user_uuid = user_uuid;
    currency_code = get_or q.currency_code default_currency;
    initial_balance = get_or q.initial_balance (pos 0);
    current_balance = get_or q.current_balance (get_or q.initial_balance (pos 0));
  };
  name = name;
  nature = get_or q.nature asset;
  account_type = get_or q.account_type none;
  include_in_net_worth = get_or q.include_in_net_worth true;
  include_in_cash_flow = in_cash_flow;
  status = status;
}

abbrev pub insert_account : ℕ → ℕ → AccountData → Bool → Lifecycle Account
insert_account new_id user_uuid q in_cash_flow = do
  name ← or_raise q.name missing_name
  status ← or_raise (status_of q.status) invalid_status
  modify (set_account new_id (some (new_account user_uuid q name status in_cash_flow)))
  pure (new_account user_uuid q name status in_cash_flow)

-- The column `include_in_cash_flow` keeps its default, whatever the payload has.
unfoldable pub create_financial_account : ℕ → ℕ → AccountData → Lifecycle Account
unfolding new_account normalize_account_status
create_financial_account new_id user_uuid q = insert_account new_id user_uuid q false

-- `if key in data: account.column = data[key]`
abbrev pub assign : {A : Type 0} → Option A → (A → Account → Account) → Account → Account
assign none f a = a
assign (some v) f a = f v a

-- the balances of an update: a current balance is taken as it is; an initial one alone shifts the
-- current one by the same difference
unfoldable pub assign_balances : Option ℤ → Option ℤ → FinancialAccount → FinancialAccount
assign_balances none none a = a
assign_balances none (some c) a = record a { current_balance = c }
assign_balances (some i) (some c) a = record a { current_balance = c; initial_balance = i }
assign_balances (some i) none a = record a {
  current_balance = a.current_balance +ℤ (i -ℤ a.initial_balance);
  initial_balance = i;
}

-- the columns that both an update and a save assign
abbrev pub assign_columns : AccountData → Account → Account
assign_columns q a =
    assign q.include_in_net_worth (λ v b. record b { include_in_net_worth = v })
      (assign q.currency_code (λ v b. record b { row = record b.row { currency_code = v } })
        (assign q.account_type (λ v b. record b { account_type = v })
          (assign q.nature (λ v b. record b { nature = v })
            (assign q.name (λ v b. record b { name = v }) a))))

abbrev pub with_balances : AccountData → Account → Account
with_balances q a = record a { row = assign_balances q.initial_balance q.current_balance a.row }

-- the status that is assigned, or the account's own
abbrev pub next_status : Option Text → AccountStatus → Option AccountStatus
next_status none own = some own
next_status (some value) own = normalize_account_status value

-- `"status" in data and status == CLOSED`
abbrev pub asks_to_close : Option Text → AccountStatus → Bool
asks_to_close none status = false
asks_to_close (some value) status = is_closed status

abbrev pub updated : AccountData → AccountStatus → Account → Account
updated q status a = record (with_balances q (assign_columns q a)) { status = status }

abbrev pub update_row : ℕ → AccountData → Account → Lifecycle (Option Account)
update_row account_id q account = do
  status ← or_raise (next_status q.status account.status) invalid_status
  raise_if (asks_to_close q.status status) use_close
  modify (set_account account_id (some (updated q status account)))
  pure (some (updated q status account))

abbrev pub if_found : {A : Type 0} → Option Account → A → (Account → Lifecycle A) → Lifecycle A
if_found none a f = pure a
if_found (some account) a f = f account

unfoldable pub update_financial_account : ℕ → ℕ → AccountData → Lifecycle (Option Account)
unfolding assign_balances normalize_account_status
update_financial_account user_uuid account_id q = do
  found ← gets (λ s. of_user user_uuid (s.accounts account_id))
  if_found found none (update_row account_id q)

abbrev pub with_cash_flow : AccountData → Account → Account
with_cash_flow q = assign q.include_in_cash_flow (λ v b. record b { include_in_cash_flow = v })

abbrev pub assign_status : ℕ → AccountData → Account → Lifecycle (Unit {0})
assign_status k q account = do
  status ← or_raise (next_status q.status account.status) invalid_status
  modify (set_account k (some (record (with_balances q account) { status = status })))

-- `_apply_financial_account_fields`, which takes any status
abbrev pub apply_financial_account_fields : ℕ → AccountData → Account → Lifecycle (Unit {0})
apply_financial_account_fields k q account = do
  modify (set_account k (some (with_cash_flow q (assign_columns q account))))
  assign_status k q (with_cash_flow q (assign_columns q account))

abbrev pub existing : ℕ → Option ℕ → (ℕ → Option Account) → Option ℕ
existing user_uuid none accounts = none
existing user_uuid (some k) accounts = elim (of_user user_uuid (accounts k)) [
  | none ↦ none
  | some a ↦ some k
]

abbrev pub save_one : ℕ → ℕ → AccountData → Option ℕ → Lifecycle (Unit {0})
save_one new_id user_uuid q (some k) = do
  found ← gets (λ s. s.accounts k)
  account ← or_raise found account_not_found
  apply_financial_account_fields k q account
save_one new_id user_uuid q none = do
  made ← insert_account new_id user_uuid q (get_or q.include_in_cash_flow false)
  pure tt

-- The loop of `save_financial_accounts`. Each item of the payload comes with the identifier that its
-- row gets if it is new. Whether an item has a row already is looked up among those from before.
unfoldable pub save_accounts :
    ℕ → (ℕ → Option Account) → List (ℕ × AccountData) → Lifecycle (Unit {0})
unfolding assign_balances normalize_account_status new_account
save_accounts user_uuid before [] = pure tt
save_accounts user_uuid before ((new_id, q) ∷ rest) = do
  save_one new_id user_uuid q (existing user_uuid q.id before)
  save_accounts user_uuid before rest

unfoldable pub save_financial_accounts : ℕ → List (ℕ × AccountData) → Lifecycle (Unit {0})
unfolding save_accounts
save_financial_accounts user_uuid accounts = do
  before ← gets (λ s. s.accounts)
  save_accounts user_uuid before accounts

abbrev pub refuse_references : ℕ × ℕ → AccountStatus → Lifecycle (Unit {0})
refuse_references (transactions, recurring) status =
    raise_if (ltb 0 transactions || ltb 0 recurring)
      (if is_closed status then closed_has_history else referenced)

abbrev pub delete_found : ℕ → Account → Lifecycle Bool
delete_found account_id account = do
  refs ← gets (λ s. count_account_references s account_id)
  refuse_references refs account.status
  raise_if (not (is_zero account.row.current_balance)) balance_not_zero
  modify (delete_account account_id)
  pure true

unfoldable pub delete_financial_account : ℕ → ℕ → Lifecycle Bool
unfolding count_account_references
delete_financial_account user_uuid account_id = do
  found ← gets (λ s. of_user user_uuid (s.accounts account_id))
  if_found found false (delete_found account_id)

abbrev pub currency_of : Account → Text
currency_of a = upper (or_text (some a.row.currency_code) default_currency)

-- the four updates that point the user's references at the target
abbrev pub repoint : ℕ → ℕ → ℕ → Store → Store
repoint user_uuid source_id target_id s = record s {
  transactions =
      update_where (λ e. e.tx.user_uuid == user_uuid) (redirect_entry source_id (some target_id))
        s.transactions;
  rules =
      update_where (λ r. r.user_uuid == user_uuid) (redirect_rule source_id (some target_id))
        s.rules;
}

abbrev pub recomputed : Rates → Text → ℕ → Account → Store → Store
recomputed rates user_base k a s =
    set_account k
      (some (record a {
        row = recompute_account_balance rates (map (λ e. e.tx) s.transactions) user_base k a.row;
      }))
      s

unfoldable pub merge_financial_accounts : Rates → Text → ℕ → ℕ → ℕ → Lifecycle (Unit {0})
merge_financial_accounts rates user_base user_uuid source_id target_id = do
  raise_if (source_id == target_id) merge_self
  found ← gets (λ s. of_user user_uuid (s.accounts source_id))
  found' ← gets (λ s. of_user user_uuid (s.accounts target_id))
  source ← or_raise found account_not_found
  target ← or_raise found' account_not_found
  raise_if (not (text_eq (currency_of source) (currency_of target))) currency_mismatch
  raise_if (not (same_nature source.nature target.nature)) nature_mismatch
  raise_if (is_closed target.status) merge_closed_target
  modify (repoint user_uuid source_id target_id)
  modify (recomputed rates user_base target_id target)
  modify (delete_account source_id)
