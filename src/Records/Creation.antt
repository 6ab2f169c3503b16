-- ===== src/Records/Creation.antt =====
-- `create_transaction`, with its replay of a submission whose idempotency key has already booked a
-- row. The exchange rates and the row that another worker commits under the key between the query for
-- it and the insertion are parameters.
use finvo.Prelude.{
  ℕ, Bool, true, false, not, ◌&&◌, Option, none, some, List, [], ◌∷◌, ◌++◌, ◌==◌, leb,
  if◌then◌else◌,
}
use finvo.Prelude.Int.{ℤ, pos, abs, leb_ℤ}
use finvo.Prelude.Lists.{select, length}
use finvo.Prelude.Text.{Text, text_eq, upper}
use finvo.Prelude.Exec.{Exec, Outcome, ok, err, pure, raise, gets, raise_if, or_raise, ◌>>=◌, ◌>>◌}
use finvo.Ledger.Model.{
  Transaction, TxType, other_type, expense, income, transfer, cleared, Rates, plus, Accounts,
}
use finvo.Ledger.Convert.{convert_to_user_base}
use finvo.Ledger.Effects.{apply_transaction_balance_effect}
use finvo.Records.Operations.{owned}
use finvo.Records.Store.{Books, set_entry}

-- a row of the unique index on users and idempotency keys
pub record Keyed : Type 0 where
  pub user_uuid : ℕ
  pub idempotency_key : Text
  pub transaction_id : ℕ

pub record Desk : Type 0 where
  pub books : Books
  pub keyed : List Keyed

pub data CreateError : Type 0 where
  amount_not_positive account_not_found invalid_currency no_rate type_refused multiple_rows
        constraint_violated :
      CreateError

pub record Submission : Type 0 where
  pub user_uuid : ℕ
  pub amount : ℤ
  pub tx_type : TxType
  pub currency : Text
  pub source_account_id : Option ℕ
  pub target_account_id : Option ℕ
  pub idempotency_key : Option Text

pub record Surroundings : Type 0 where
  pub rates : Rates
  pub user_base : ℕ → Text
  pub rate : Text → Text → Option ℤ
  pub one : ℤ
  pub quantize : ℤ → ℤ
  pub new_uuid : ℕ
  pub rival : Option ℕ

-- whether the result is a replay, and the transaction
abbrev pub Create : Type 0
Create = Exec Desk CreateError (Bool × ℕ)

abbrev pub is_keyed : ℕ → Text → Keyed → Bool
is_keyed user_uuid key k = k.user_uuid == user_uuid && text_eq k.idempotency_key key

abbrev pub one_or_none : List Keyed → Exec Desk CreateError (Option Keyed)
one_or_none [] = pure none
one_or_none (k ∷ []) = pure (some k)
one_or_none (k ∷ l ∷ rest) = raise multiple_rows

-- `_get_by_idempotency_key`
unfoldable pub get_by_idempotency_key : ℕ → Text → Exec Desk CreateError (Option Keyed)
get_by_idempotency_key user_uuid key = do
  rows ← gets (λ s. select (is_keyed user_uuid key) s.keyed)
  one_or_none rows

unfoldable pub check_owned : Option ℕ → ℕ → Exec Desk CreateError (Unit {0})
check_owned none user_uuid = pure tt
check_owned (some k) user_uuid = do
  found ← gets (λ s. owned user_uuid (s.books.accounts k))
  raise_if (not found) account_not_found

-- `isalpha` of an upper-case text, for the ASCII letters; Python accepts other letters too, with which
-- no code of a currency is written.
unfoldable pub is_alpha : Text → Bool
is_alpha [] = true
is_alpha (c ∷ t) = leb b'A' c && leb c b'Z' && is_alpha t

abbrev pub is_code : Text → Bool
is_code t = length t == 3 && is_alpha t

abbrev pub new_transaction : Surroundings → Submission → ℤ × ℤ → Transaction
new_transaction site q converted = record {
  uuid = site.new_uuid;
  user_uuid = q.user_uuid;
  tx_type = q.tx_type;
  status = cleared;
  amount = site.quantize converted.0;
  amount_original = abs q.amount;
  currency = upper q.currency;
  exchange_rate = some (site.quantize converted.1);
  source_account_id = q.source_account_id;
  target_account_id = q.target_account_id;
}

abbrev pub with_transaction : Transaction → Desk → Desk
with_transaction tx s = record s {
  books = set_entry tx.uuid (some record { tx = tx; is_system = false }) s.books;
}

abbrev pub indexed : Keyed → Desk → Desk
indexed k s = record s { keyed = s.keyed ++ k ∷ [] }

abbrev pub with_accounts : Accounts → Desk → Desk
with_accounts accounts s = record s { books = record s.books { accounts = accounts } }

abbrev pub of_effect : {A : Type 0} → ℕ → Outcome A (Unit {0}) → Outcome CreateError (Bool × ℕ)
of_effect uuid (ok _) = let made : Bool × ℕ = (false, uuid) in ok made
of_effect uuid (err _) = err no_rate

-- the insertion, with its effect on the accounts
unfoldable pub insert_booked : Surroundings → Submission → Transaction → Create
unfolding apply_transaction_balance_effect
insert_booked site q tx s =
    let (result, accounts) =
      apply_transaction_balance_effect site.rates (site.user_base q.user_uuid) tx q.user_uuid plus
        q.source_account_id q.target_account_id true true s.books.accounts in
    (of_effect tx.uuid result, with_accounts accounts (with_transaction tx s))

-- the table's constraint on types
abbrev pub is_type : TxType → Bool
is_type (other_type t) = false
is_type expense = true
is_type income = true
is_type transfer = true

abbrev pub stored : Bool → Keyed → Desk → Create
stored false k s' s = (err type_refused, s)
stored true k s' s = let made : Bool × ℕ = (false, k.transaction_id) in (ok made, indexed k s')

-- The end of the savepoint. The flush of the row fails on a row of another worker under the key, and
-- that is replayed, or on its type, and then no row is there to replay.
abbrev pub flushed :
    Submission → Text → Bool → Outcome CreateError (Bool × ℕ) × Desk → Option ℕ → Create
flushed q key right (err e, s') rival s = (err e, s)
flushed q key right (ok (replay, uuid), s') none s =
    stored right record { user_uuid = q.user_uuid; idempotency_key = key; transaction_id = uuid } s'
      s
flushed q key right (ok result, s') (some other) s =
    let replayed : Bool × ℕ = (true, other) in
    (
      ok replayed,
      indexed record { user_uuid = q.user_uuid; idempotency_key = key; transaction_id = other } s,
    )

-- the insertion under a key and a savepoint
abbrev pub insert_under : Surroundings → Submission → Text → Transaction → Create
insert_under site q key tx s =
    flushed q key (is_type tx.tx_type) (insert_booked site q tx s) site.rival s

abbrev pub insert : Surroundings → Submission → Option Text → Transaction → Create
insert site q none tx = do
  made ← insert_booked site q tx
  raise_if (not (is_type tx.tx_type)) type_refused
  pure made
insert site q (some key) tx = insert_under site q key tx

-- `create_transaction` after the replay; an empty key is none
unfoldable pub create_new : Surroundings → Submission → Option Text → Create
unfolding check_owned is_alpha insert_booked convert_to_user_base
create_new site q key = do
  check_owned q.source_account_id q.user_uuid
  check_owned q.target_account_id q.user_uuid
  raise_if (not (is_code (upper q.currency))) invalid_currency
  converted ←
      or_raise
        (convert_to_user_base site.rates site.rate site.one (abs q.amount) (upper q.currency)
          (site.user_base q.user_uuid))
        no_rate
  insert site q key (new_transaction site q converted)

abbrev pub replay_or : Option Keyed → Create → Create
replay_or none create = create
replay_or (some k) create = let replayed : Bool × ℕ = (true, k.transaction_id) in pure replayed

abbrev pub create_under : Surroundings → Submission → Option Text → Create
create_under site q none = create_new site q none
create_under site q (some []) = create_new site q none
create_under site q (some (c ∷ key)) = do
  existing ← get_by_idempotency_key q.user_uuid (c ∷ key)
  replay_or existing (create_new site q (some (c ∷ key)))

unfoldable pub create_transaction : Surroundings → Submission → Create
unfolding get_by_idempotency_key create_new
create_transaction site q s =
    if leb_ℤ q.amount (pos 0)
    then (err amount_not_positive, s)
    else create_under site q q.idempotency_key s
