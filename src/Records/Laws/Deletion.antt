-- ===== src/Records/Laws/Deletion.antt =====
-- The deletion of a transaction that was confirmed.
use finvo.Prelude.{==_refl, ℕ, ◌≡◌, refl, true, false, none, some, ◌==◌}
use finvo.Prelude.Text.{Text}
use finvo.Prelude.Exec.{final, Outcome, err, ok, after}
use finvo.Ledger.Model.{
  LedgerError, exchange_rate_unavailable, Rates, FinancialAccount, confirmed, plus, minus,
}
use finvo.Ledger.Effects.{
  apply_transaction_balance_effect, convert_snapshot_amount, account_currency,
}
use finvo.Ledger.Laws.Reversal.{apply_transaction_balance_effect-deleted}
use finvo.Records.Store.{
  Entry, Books, as_record_error, set_entry, is_pending, get_mutable, get_owned_transaction,
}
use finvo.Records.Operations.{with_status, confirm_pending_transaction, delete_transaction}

pub as_record_error-ok :
    (r : Outcome LedgerError (Unit {0})) → as_record_error r ≡ ok tt → r ≡ ok tt
as_record_error-ok (ok tt) h = refl
as_record_error-ok (err exchange_rate_unavailable) h = cc

module _ (rates : Rates) (user_base : Text) (k uid : ℕ) (s : Books) (entry : Entry)
    (here : s.entries k ≡ some entry) (own : (entry.tx.user_uuid == uid) ≡ true)
    (waiting : is_pending entry.tx.status ≡ true) (not_system : entry.is_system ≡ false)
    (snapshot : (a : FinancialAccount)
      → convert_snapshot_amount rates entry.tx.amount_original entry.tx.amount entry.tx.currency
          (account_currency a user_base)
          user_base
          false
        ≡ convert_snapshot_amount rates entry.tx.amount_original entry.tx.amount entry.tx.currency
            (account_currency a user_base)
            user_base
            true)
    (returned : (confirm_pending_transaction rates user_base k uid s).0 ≡ ok tt) where
  confirm-run : confirm_pending_transaction rates user_base k uid s ≡ (
      let r =
        apply_transaction_balance_effect rates user_base
          (with_status confirmed entry).tx
          uid
          plus
          entry.tx.source_account_id
          entry.tx.target_account_id
          true
          true
          s.accounts in
      (
        as_record_error r.0,
        record (set_entry k (some (with_status confirmed entry)) s) { accounts = r.1 },
      ))
  unfolding confirm_pending_transaction get_owned_transaction
  confirm-run = rw (here, own, waiting) refl

  delete-run :
      (s' : Books)
      → s'.entries k ≡ some (with_status confirmed entry)
      → delete_transaction rates user_base k uid s' ≡ (
          let r =
            apply_transaction_balance_effect rates user_base
              (with_status confirmed entry).tx
              uid
              minus
              entry.tx.source_account_id
              entry.tx.target_account_id
              true
              false
              s'.accounts in
          after
            (as_record_error r.0)
            (λ _ t. (ok tt, set_entry k none t))
            (record s' { accounts = r.1 }))
  unfolding delete_transaction get_mutable
  delete-run s' left = rw (left, own, not_system) refl

  -- Deleting a transaction that was confirmed before undoes the confirmation: if no conversion for
  -- the transaction depends on a live rate, and it is not a SYSTEM entry, then the deletion by its
  -- owner returns, the transaction is gone, and every account has the row that it had before the
  -- confirmation.
  pub delete_transaction-confirmed :
      let confirmation = final (confirm_pending_transaction rates user_base k uid s) in
      let deletion = delete_transaction rates user_base k uid confirmation in
      (deletion.0 ≡ ok tt)
      × ((final deletion).entries k ≡ none)
      × ((j : ℕ) → (final deletion).accounts j ≡ s.accounts j)
  delete_transaction-confirmed =
      let tx = (with_status confirmed entry).tx in
      let booking =
        apply_transaction_balance_effect rates user_base tx uid plus entry.tx.source_account_id
          entry.tx.target_account_id true true s.accounts in
      let mid = record (set_entry k (some (with_status confirmed entry)) s) {
        accounts = booking.1;
      } in
      let booked_ok = as_record_error-ok booking.0 (rw confirm-run at returned) in
      let (undone, same) =
        apply_transaction_balance_effect-deleted rates tx uid user_base snapshot
          entry.tx.source_account_id entry.tx.target_account_id s.accounts booked_ok in
      rw (confirm-run, delete-run mid (rw (==_refl k) refl), undone, ==_refl k) (refl, refl, same)
