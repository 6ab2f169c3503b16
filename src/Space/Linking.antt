-- ===== src/Space/Linking.antt =====
-- server/app/services/shared_space_transaction_service.py: the link of a transaction to a space. The
-- table of transactions, the identifiers that a batch creation returned, and who added the row that
-- another worker inserts between the query and the flush are arguments.
use finvo.Prelude.{
  ℕ, Bool, true, false, not, ◌&&◌, Option, none, some, List, [], ◌∷◌, ◌++◌, ◌==◌, if◌then◌else◌,
}
use finvo.Prelude.Lists.{select}
use finvo.Prelude.Text.{Text, codes, or_text, upper}
use finvo.Prelude.Exec.{
  Outcome, ok, err, pure, raise, gets, or_raise, raise_if, modify, ◌>>=◌, ◌>>◌,
}
use finvo.Ledger.Model.{Transaction}
use finvo.Space.Model.{
  SharedSpace, SpaceTransaction, Session, SpaceError, multiple_rows, no_row, duplicate_key,
  transaction_not_exists, not_own_transaction, transaction_added, Action, scalar_one_or_none,
  has_id, collect_event,
}
use finvo.Space.Access.{verify_membership}

-- `SpaceTransaction.space_id == space_id AND SpaceTransaction.transaction_id == transaction_id`
abbrev pub is_link : ℕ → ℕ → SpaceTransaction → Bool
is_link space_id transaction_id l = l.space_id == space_id && l.transaction_id == transaction_id

abbrev pub linked : SpaceTransaction → Session → Session
linked l s = record s { links = s.links ++ l ∷ [] }

abbrev pub name_of : Option SharedSpace → Text
name_of none = codes "Shared Space"
name_of (some space) = or_text (some space.name) (codes "Shared Space")

-- the event of a new link
unfoldable pub announce : ℕ → ℕ → Transaction → Action (Unit {0})
announce space_id user_uuid tx = do
  rows ← gets (λ s. select (has_id space_id) s.spaces)
  space ← scalar_one_or_none rows
  collect_event (
      transaction_added space_id (name_of space) tx.uuid user_uuid tx.amount_original
        (upper (or_text (some tx.currency) (codes "CNY"))))

-- The insertion in its savepoint; a row of another worker makes it fail, and is enough. The result
-- says whether the link was there before.
unfoldable pub insert_link : ℕ → ℕ → Transaction → ℕ → Option ℕ → Action Bool
unfolding announce
insert_link space_id user_uuid tx transaction_id none = do
  modify (
      linked record {
        space_id = space_id;
        transaction_id = transaction_id;
        added_by_user_uuid = user_uuid;
      })
  announce space_id user_uuid tx
  pure false
insert_link space_id user_uuid tx transaction_id (some other) = do
  modify (
      linked
        record { space_id = space_id; transaction_id = transaction_id; added_by_user_uuid = other })
  pure true

abbrev pub unless_linked : Option SpaceTransaction → Action Bool → Action Bool
unless_linked none insert = insert
unless_linked (some l) insert = pure true

abbrev pub link_own : Option ℕ → ℕ → ℕ → ℕ → Transaction → Action Bool
link_own rival space_id user_uuid transaction_id tx = do
  raise_if (not (tx.user_uuid == user_uuid)) not_own_transaction
  rows ← gets (λ s. select (is_link space_id transaction_id) s.links)
  existing ← scalar_one_or_none rows
  unless_linked existing (insert_link space_id user_uuid tx transaction_id rival)

unfoldable pub add_transaction_to_space :
    (ℕ → Option Transaction) → Option ℕ → ℕ → ℕ → ℕ → Action Bool
unfolding verify_membership insert_link
add_transaction_to_space transactions rival space_id user_uuid transaction_id = do
  member ← verify_membership space_id user_uuid
  tx ← or_raise (transactions transaction_id) transaction_not_exists
  link_own rival space_id user_uuid transaction_id tx

-- The errors of a query with the wrong number of rows and of a constraint are no `AppException`.
abbrev pub is_app_exception : SpaceError → Bool
is_app_exception multiple_rows = false
is_app_exception no_row = false
is_app_exception duplicate_key = false
is_app_exception _ = true

-- `except AppException`; any other exception goes through
abbrev pub tolerated : ℕ → Outcome SpaceError Bool → Action (List ℕ)
tolerated transaction_id (ok already) = pure []
tolerated transaction_id (err e) =
    if is_app_exception e then pure (transaction_id ∷ []) else raise e

abbrev pub attempt : ℕ → Action Bool → Action (List ℕ)
attempt transaction_id m s = let (result, s') = m s in tolerated transaction_id result s'

-- The loop of `record_shared_transactions` over the created transactions: the links that failed.
unfoldable pub link_all :
    (ℕ → Option Transaction) → (ℕ → Option ℕ) → ℕ → ℕ → List ℕ → Action (List ℕ)
unfolding add_transaction_to_space
link_all transactions rival space_id user_uuid [] = pure []
link_all transactions rival space_id user_uuid (id ∷ ids) = do
  failed ← attempt id (add_transaction_to_space transactions (rival id) space_id user_uuid id)
  rest ← link_all transactions rival space_id user_uuid ids
  pure (failed ++ rest)
