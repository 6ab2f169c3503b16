-- ===== src/Space/Effects/Recording.antt =====
-- The creation of a batch with its links (`record_shared_transactions` of
-- server/app/services/shared_space_transaction_service.py).
use finvo.Prelude.{List, ℕ, ◌≡◌, refl, Option, [], arith}
use finvo.Prelude.Exec.{◌>>=◌, err, after, ok, Outcome, final}
use finvo.Ledger.Model.{Transaction}
use finvo.Records.Batch.{Batch, Item, BatchResult, create_batch_transactions}
use finvo.Space.Recording.{
  tx_of, Shared, SharingError, Sharing, creating, on_session, link_created, answering,
  record_shared_transactions,
}
use finvo.Space.Linking.{link_all}
use finvo.Space.Effects.LinkAll.{Links, AllLinked, link_all-AllLinked}

-- An answer has the result of the batch, and the links that failed.
answering-ok :
    (q r : BatchResult) (x : Outcome SharingError (List ℕ) × Shared)
    → (after x.0 (answering q) x.1).0 ≡ ok (r, [])
    → (q ≡ r) × (x.0 ≡ ok []) × (final (after x.0 (answering q) x.1) ≡ final x)
answering-ok q r (ok failed, t) h =
    let same : q ≡ r = ground (arith, h) in
    let none_failed : failed ≡ [] = ground (arith, h) in (same, rw none_failed refl, refl)
answering-ok q r (err e, t) h = (cc, cc, cc)

module _ (b : Batch) (space_id : ℕ) (rival : ℕ → Option ℕ) (r : BatchResult)
    (clean : r.failed ≡ []) where
  abbrev links_of : BatchResult → Sharing (BatchResult × List ℕ)
  links_of q = link_created rival space_id b.user_uuid q >>= answering q

  on_session-links :
      (x : Links) (t : Shared)
      → (x.0 ≡ ok [] → AllLinked space_id r.transactions (final x))
      → (on_session x t).0 ≡ ok []
      → AllLinked space_id r.transactions (final (on_session x t)).session
  on_session-links (ok failed, session) t k h =
      k (let none_failed : failed ≡ [] = cc in rw none_failed refl)
  on_session-links (err e, session) t k h = k cc

  link_created-links :
      (t : Shared)
      → (link_created rival space_id b.user_uuid r t).0 ≡ ok []
      → AllLinked space_id r.transactions
          (final (link_created rival space_id b.user_uuid r t)).session
  link_created-links t h =
      let entries : ℕ → Option Transaction = λ k. tx_of (t.desk.books.entries k) in
      rw clean (
        on_session-links (link_all entries rival space_id b.user_uuid r.transactions t.session) t
          (link_all-AllLinked entries rival space_id b.user_uuid r.transactions t.session)
          (rw clean at h))

  links_of-links :
      (q : BatchResult) (t : Shared)
      → (links_of q t).0 ≡ ok (r, [])
      → AllLinked space_id r.transactions (final (links_of q t)).session
  links_of-links q t h =
      let (same, none_failed, left) =
        answering-ok q r (link_created rival space_id b.user_uuid q t) h in
      rw left (rw same (link_created-links t (rw same at none_failed)))

-- If `record_shared_transactions` returns with neither a failed item nor a failed link, then every
-- transaction that the batch created has a single link to the space, whatever other workers insert.
pub record_shared_transactions-links :
    (b : Batch) (items : List Item) (space_id : ℕ) (rival : ℕ → Option ℕ) (s : Shared)
    (r : BatchResult)
    → (record_shared_transactions b items space_id rival s).0 ≡ ok (r, [])
    → r.failed ≡ []
    → AllLinked space_id r.transactions
        (final (record_shared_transactions b items space_id rival s)).session
unfolding record_shared_transactions
record_shared_transactions-links b items space_id rival s r h clean =
    created (creating (create_batch_transactions b items) s) h
  where
    created :
        (x : Outcome SharingError BatchResult × Shared)
        → (after x.0 (links_of b space_id rival r clean) x.1).0 ≡ ok (r, [])
        → AllLinked space_id r.transactions
            (final (after x.0 (links_of b space_id rival r clean) x.1)).session
    created (ok q, t) e = links_of-links b space_id rival r clean q t e
    created (err x, t) e = cc
