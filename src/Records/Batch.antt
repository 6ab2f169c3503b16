-- ===== src/Records/Batch.antt =====
-- The batches of server/app/services/transaction/crud_service.py: `create_batch_transactions` and
-- `update_batch_transactions_account`. The identifiers and the time of a batch are parsed before; an
-- amount that is missing or no number is `none`.
use finvo.Prelude.{
  ◌==◌, ℕ, suc, Bool, true, false, not, ◌&&◌, ◌||◌, Option, none, some, List, [], ◌∷◌,
  if◌then◌else◌,
}
use finvo.Prelude.Int.{ℤ, pos, leb_ℤ}
use finvo.Prelude.Text.{Text, or_text, upper}
use finvo.Prelude.Exec.{◌>>◌, Exec, Outcome, ok, err, pure, ◌>>=◌}
use finvo.Ledger.Model.{Transaction, TxType, Rates, Accounts}
use finvo.Ledger.Convert.{convert_to_user_base}
use finvo.Records.Store.{Operation, get_mutable, is_pending, Books, RecordError}
use finvo.Records.Operations.{
  check_account, same_account, linked_account, update_transaction_account,
}
use finvo.Records.Creation.{
  Keyed, Desk, CreateError, constraint_violated, Submission, Surroundings, get_by_idempotency_key,
  is_alpha, is_code, new_transaction, with_transaction, indexed, insert_booked, is_type,
}

-- the user and the accounts of a batch
pub record Batch : Type 0 where
  pub user_uuid : ℕ
  pub source_account_id : Option ℕ
  pub target_account_id : Option ℕ

-- an item, with what its processing meets
pub record Item : Type 0 where
  pub amount : Option ℤ
  pub tx_type : TxType
  pub currency : Option Text
  pub idempotency_key : Option Text
  pub site : Surroundings

pub data Processed : Type 0 where
  created : ℕ → Processed
  rejected replayed : Processed

abbrev pub Process : Type 0
Process = Exec Desk CreateError Processed

-- `item.get("idempotency_key") or None`
abbrev pub item_key : Option Text → Option Text
item_key (some (c ∷ key)) = some (c ∷ key)
item_key _ = none

abbrev pub submission : Batch → Item → ℤ → Text → Submission
submission b i amount currency = record {
  user_uuid = b.user_uuid;
  amount = amount;
  tx_type = i.tx_type;
  currency = currency;
  source_account_id = b.source_account_id;
  target_account_id = b.target_account_id;
  idempotency_key = item_key i.idempotency_key;
}

abbrev pub is_stored : Accounts → Option ℕ → Bool
is_stored accounts none = true
is_stored accounts (some k) = elim (accounts k) [ none ↦ false | some account ↦ true ]

-- the constraints on the type and the accounts of a row
abbrev pub is_allowed : Batch → Accounts → TxType → Bool
is_allowed b accounts k =
    is_type k && is_stored accounts b.source_account_id && is_stored accounts b.target_account_id

-- The end of the savepoint with the handler of its IntegrityError: the flush fails on a constraint, or
-- on a row that another worker has committed under the key, which is then replayed.
abbrev pub settled : ℕ → Option Text → Bool → Option ℕ → ℕ → Desk → Process
settled user none true rival uuid s' s = (ok (created uuid), s')
settled user none false rival uuid s' s = (err constraint_violated, s)
settled user (some key) allowed (some other) uuid s' s = (
  ok replayed,
  indexed record { user_uuid = user; idempotency_key = key; transaction_id = other } s,
)
settled user (some key) true none uuid s' s = (
  ok (created uuid),
  indexed record { user_uuid = user; idempotency_key = key; transaction_id = uuid } s',
)
settled user (some key) false none uuid s' s = (err constraint_violated, s)

-- the savepoint: an error of the ledger rejects the item
abbrev pub after_effect : Batch → Item → ℕ → Bool → Outcome CreateError (Bool × ℕ) × Desk → Process
after_effect b i uuid allowed (err e, s') s = (ok rejected, s)
after_effect b i uuid allowed (ok r, s') s =
    settled b.user_uuid (item_key i.idempotency_key) allowed i.site.rival uuid s' s

abbrev pub is_given : Option ℕ → Bool
is_given none = false
is_given (some k) = true

-- `source_account_uuid or target_account_uuid`
abbrev pub has_account : Batch → Bool
has_account b = is_given b.source_account_id || is_given b.target_account_id

-- the row with its effect on the accounts
abbrev pub add_row : Batch → Submission → Item → Transaction → Exec Desk CreateError (Bool × ℕ)
add_row b q i tx s =
    if has_account b
    then insert_booked i.site q tx s
    else (let made : Bool × ℕ = (false, tx.uuid) in (ok made, with_transaction tx s))

abbrev pub book_converted : Batch → Submission → Item → Option (ℤ × ℤ) → Process
book_converted b q i none s = (ok rejected, s)
book_converted b q i (some converted) s =
    let tx = new_transaction i.site q converted in
    after_effect b i tx.uuid (is_allowed b s.books.accounts tx.tx_type) (add_row b q i tx s) s

-- an item with an amount; `default_currency` is the user's base currency
unfoldable pub book_amount : Batch → Item → ℤ → Process
unfolding is_alpha insert_booked convert_to_user_base
book_amount b i amount s =
    let base = i.site.user_base b.user_uuid in
    let currency = upper (or_text i.currency base) in
    if leb_ℤ amount (pos 0)
    then (ok rejected, s)
    else if not (is_code currency)
    then (ok rejected, s)
    else book_converted b (submission b i amount currency) i
        (convert_to_user_base i.site.rates i.site.rate i.site.one amount currency base) s

abbrev pub book_new : Batch → Item → Option ℤ → Process
book_new b i none s = (ok rejected, s)
book_new b i (some amount) s = book_amount b i amount s

abbrev pub unless_booked : Batch → Item → Option Keyed → Process
unless_booked b i none = book_new b i i.amount
unless_booked b i (some k) = pure replayed

abbrev pub by_key : Batch → Item → Option Text → Process
by_key b i none = book_new b i i.amount
by_key b i (some key) = do
  existing ← get_by_idempotency_key b.user_uuid key
  unless_booked b i existing

-- one pass of the loop
unfoldable pub book_item : Batch → Item → Process
unfolding get_by_idempotency_key book_amount
book_item b i = by_key b i (item_key i.idempotency_key)

pub record BatchResult : Type 0 where
  pub transactions : List ℕ
  pub failed : List ℕ
  pub replayed_count : ℕ

abbrev pub counted : ℕ → Processed → BatchResult → BatchResult
counted index (created uuid) r = record r { transactions = uuid ∷ r.transactions }
counted index rejected r = record r { failed = index ∷ r.failed }
counted index replayed r = record r { replayed_count = suc r.replayed_count }

-- the loop from an index on
unfoldable pub book_items : Batch → ℕ → List Item → Exec Desk CreateError BatchResult
unfolding book_item
book_items b index [] = pure record { transactions = []; failed = []; replayed_count = 0 }
book_items b index (i ∷ rest) = do
  processed ← book_item b i
  result ← book_items b (suc index) rest
  pure (counted index processed result)

unfoldable pub create_batch_transactions : Batch → List Item → Exec Desk CreateError BatchResult
unfolding book_items
create_batch_transactions b items = book_items b 0 items

pub record UpdateResult : Type 0 where
  pub count : ℕ
  pub failed : List ℕ

abbrev pub tallied : ℕ → Outcome RecordError (Unit {0}) → UpdateResult → UpdateResult
tallied id (ok _) r = record r { count = suc r.count }
tallied id (err e) r = record r { failed = id ∷ r.failed }

-- What `update_transaction_account` comes to in the loop: an error, `none` for an account that is
-- linked already, or else the row that it locks first, if any.
unfoldable pub visited : ℕ → ℕ → Option ℕ → Operation (Option (Option ℕ))
unfolding get_mutable check_account
visited transaction_id user_uuid account_id = do
  entry ← get_mutable transaction_id user_uuid
  if same_account (linked_account entry.tx) account_id
      then pure none
      else check_account account_id user_uuid
        >> pure (some (if is_pending entry.tx.status then none else linked_account entry.tx))

-- The locked read takes the row from the database again, and drops what is not flushed of it. The row
-- that is locked second is that of the batch's account, of which nothing is left unflushed.
abbrev pub reread : Accounts → Outcome RecordError (Option (Option ℕ)) → Books → Books
reread stored (ok (some (some k))) s = record s {
  accounts = λ j. if k == j then stored j else s.accounts j;
}
reread stored (ok (some none)) s = s
reread stored (ok none) s = s
reread stored (err e) s = s

-- the accounts in the database after an item: only one that is linked flushes
abbrev pub stored_after :
    Outcome RecordError (Option (Option ℕ))
    → Outcome RecordError (Unit {0})
    → Accounts
    → Accounts
    → Accounts
stored_after (ok (some visit)) (ok _) stored now = now
stored_after (ok (some visit)) (err e) stored now = stored
stored_after (ok none) outcome stored now = stored
stored_after (err e) outcome stored now = stored

-- The loop, where the database holds the accounts `stored`. The errors of the items are caught and
-- what they have written stays in the session: none of them breaks it.
unfoldable pub update_items :
    Rates → Text → ℕ → Option ℕ → Accounts → List ℕ → Books → UpdateResult × Books
unfolding update_transaction_account visited
update_items rates base user account stored [] s = (record { count = 0; failed = [] }, s)
update_items rates base user account stored (id ∷ ids) s =
    let visit = (visited id user account s).0 in
    let (outcome, s') =
      update_transaction_account rates base id user account (reread stored visit s) in
    let (result, s'') =
      update_items rates base user account (stored_after visit outcome stored s'.accounts) ids s' in
    (tallied id outcome result, s'')

-- The session is flushed before; its commit writes what the items have left.
unfoldable pub update_batch_transactions_account :
    Rates → Text → ℕ → Option ℕ → List ℕ → Books → UpdateResult × Books
unfolding update_items
update_batch_transactions_account rates base user account ids s =
    update_items rates base user account s.accounts ids s
