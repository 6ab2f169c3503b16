-- ===== src/Space/Recording.antt =====
-- `create_transaction_for_space` and `record_shared_transactions` of
-- server/app/services/shared_space_transaction_service.py: the creation of transactions, and then their
-- links to a space. The accounts with the transactions, and the spaces, are two parts of one session.
use finvo.Prelude.{ℕ, Bool, true, false, not, Option, none, some, List, [], ◌∷◌, if◌then◌else◌}
use finvo.Prelude.Exec.{Exec, Outcome, ok, err, pure, gets, ◌>>=◌}
use finvo.Ledger.Model.{Transaction}
use finvo.Records.Store.{Entry}
use finvo.Records.Creation.{Desk, CreateError, Submission, Surroundings, create_transaction}
use finvo.Records.Batch.{Batch, Item, BatchResult, create_batch_transactions}
use finvo.Space.Model.{Session, SpaceError, Action}
use finvo.Space.Linking.{add_transaction_to_space, attempt, link_all}

pub record Shared : Type 0 where
  pub desk : Desk
  pub session : Session

pub data SharingError : Type 0 where
  not_created : CreateError → SharingError
  not_linked : SpaceError → SharingError

abbrev pub Sharing : Type 0 → Type 0
Sharing A = Exec Shared SharingError A

abbrev pub on_desk :
    {A : Type 0} → Outcome CreateError A × Desk → Shared → Outcome SharingError A × Shared
on_desk (ok a, desk) s = (ok a, record s { desk = desk })
on_desk (err e, desk) s = (err (not_created e), record s { desk = desk })

-- a call of the transaction service
abbrev pub creating : {A : Type 0} → Exec Desk CreateError A → Sharing A
creating m s = on_desk (m s.desk) s

abbrev pub on_session :
    {A : Type 0} → Outcome SpaceError A × Session → Shared → Outcome SharingError A × Shared
on_session (ok a, session) s = (ok a, record s { session = session })
on_session (err e, session) s = (err (not_linked e), record s { session = session })

-- a call of the space's own operations
abbrev pub linking : {A : Type 0} → Action A → Sharing A
linking m s = on_session (m s.session) s

abbrev pub tx_of : Option Entry → Option Transaction
tx_of none = none
tx_of (some entry) = some entry.tx

abbrev pub is_empty : {A : Type 0} → List A → Bool
is_empty [] = true
is_empty (x ∷ xs) = false

-- the transaction, and whether its link has failed
unfoldable pub create_transaction_for_space :
    Surroundings → Submission → ℕ → Option ℕ → Sharing (ℕ × Bool)
unfolding create_transaction add_transaction_to_space
create_transaction_for_space site q space_id rival = do
  created ← creating (create_transaction site q)
  entries ← gets (λ s. s.desk.books.entries)
  failed ← linking (
      attempt created.1
        (add_transaction_to_space (λ k. tx_of (entries k)) rival space_id q.user_uuid created.1))
  let result : ℕ × Bool = (created.1, not (is_empty failed))
  pure result

-- the links of a batch that has no failures
abbrev pub link_created : (ℕ → Option ℕ) → ℕ → ℕ → BatchResult → Sharing (List ℕ)
link_created rival space_id user_uuid result s =
    if is_empty result.failed
    then linking
        (link_all (λ k. tx_of (s.desk.books.entries k)) rival space_id user_uuid
          result.transactions)
        s
    else (ok [], s)

abbrev pub answering : BatchResult → List ℕ → Sharing (BatchResult × List ℕ)
answering result failed s = (ok (result, failed), s)

-- the result of the batch, and the links that have failed
unfoldable pub record_shared_transactions :
    Batch → List Item → ℕ → (ℕ → Option ℕ) → Sharing (BatchResult × List ℕ)
unfolding create_batch_transactions link_all
record_shared_transactions b items space_id rival = do
  result ← creating (create_batch_transactions b items)
  failed ← link_created rival space_id b.user_uuid result
  answering result failed
