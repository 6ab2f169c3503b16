-- ===== src/Records/Laws/Lifecycle.antt =====
-- The states of a recorded transaction: pending, then confirmed or gone.
use finvo.Prelude.{
  Option, ==_refl, Bool-cases, Option-cases, arith, false, inl, inr, refl, some, true, ℕ, ◌==◌, ◌≡◌,
}
use finvo.Prelude.Text.{Text}
use finvo.Prelude.Exec.{err, final, ok}
use finvo.Prelude.Int.{ℤ}
use finvo.Ledger.Model.{Rates, confirmed}
use finvo.Records.Operations.{
  update_transaction_account, update_amount, delete_transaction, skip_pending_transaction,
  confirm_pending_transaction, with_status,
}
use finvo.Records.Store.{
  get_mutable, system_readonly, not_pending, Books, Entry, get_owned_transaction, is_pending,
}

skip-refused :
    (k uid : ℕ) (s : Books) (entry : Entry)
    → s.entries k ≡ some entry
    → entry.tx.user_uuid ≡ uid
    → is_pending entry.tx.status ≡ false
    → skip_pending_transaction k uid s ≡ (err not_pending, s)
unfolding skip_pending_transaction get_owned_transaction
skip-refused k uid s entry here own settled = rw (here, own, ==_refl uid, settled) refl

module _ (rates : Rates) (user_base : Text) (k uid : ℕ) where
  -- what a confirmation that returned has found and left
  confirm-inverse :
      (s : Books)
      → (confirm_pending_transaction rates user_base k uid s).0 ≡ ok tt
      → (entry : Entry) × (s.entries k ≡ some entry)
        × (entry.tx.user_uuid ≡ uid)
        × (is_pending entry.tx.status ≡ true)
        × ((final (confirm_pending_transaction rates user_base k uid s)).entries k
            ≡ some (with_status confirmed entry))
  unfolding confirm_pending_transaction get_owned_transaction
  confirm-inverse s h = elim (Option-cases (s.entries k)) [
    | inl gone ↦ ground arith
    | inr (entry, here) ↦ elim (Bool-cases (entry.tx.user_uuid == uid)) [
      | inl own ↦ elim (Bool-cases (is_pending entry.tx.status)) [
        | inl waiting ↦ (entry, here, ground arith, waiting, ground arith)
        | inr other ↦ ground arith
      ]
      | inr foreign ↦ ground arith
    ]
  ]

  confirm-refused :
      (s : Books) (entry : Entry)
      → s.entries k ≡ some entry
      → entry.tx.user_uuid ≡ uid
      → is_pending entry.tx.status ≡ false
      → confirm_pending_transaction rates user_base k uid s ≡ (err not_pending, s)
  unfolding confirm_pending_transaction get_owned_transaction
  confirm-refused s entry here own settled = rw (here, own, ==_refl uid, settled) refl

  -- A transaction is confirmed once: after a confirmation that returned, a second one, or a skip,
  -- by the same user raises that the transaction is not pending, and changes nothing.
  confirm_pending_transaction-once :
      (s : Books)
      → (confirm_pending_transaction rates user_base k uid s).0 ≡ ok tt
      → let after = final (confirm_pending_transaction rates user_base k uid s) in
        (confirm_pending_transaction rates user_base k uid after ≡ (err not_pending, after))
        × (skip_pending_transaction k uid after ≡ (err not_pending, after))
  confirm_pending_transaction-once s h =
      let (entry, here, own, waiting, left) = confirm-inverse s h in
      let after = final (confirm_pending_transaction rates user_base k uid s) in
      (
        confirm-refused after (with_status confirmed entry) left own refl,
        skip-refused k uid after (with_status confirmed entry) left own refl,
      )

-- On a SYSTEM entry of the user a deletion, a change of the account and a change of the amount all
-- raise that it is read-only, and leave the tables as they are.
system_entry-readonly :
    (rates : Rates) (user_base : Text) (to_base : ℤ → Text → Text → Option (ℤ × ℤ)) (k uid : ℕ)
    (account_id : Option ℕ) (amount : ℤ) (s : Books) (entry : Entry)
    → s.entries k ≡ some entry
    → (entry.tx.user_uuid == uid) ≡ true
    → entry.is_system ≡ true
    → (delete_transaction rates user_base k uid s ≡ (err system_readonly, s))
      × (update_transaction_account rates user_base k uid account_id s ≡ (err system_readonly, s))
      × (update_amount rates user_base to_base k uid amount s ≡ (err system_readonly, s))
unfolding delete_transaction update_transaction_account update_amount get_mutable
system_entry-readonly rates user_base to_base k uid account_id amount s entry here own system =
    (rw (here, own, system) refl, rw (here, own, system) refl, rw (here, own, system) refl)
