-- ===== src/Records/Laws/Relinking.antt =====
-- The change of the account of a booked transaction.
use finvo.Prelude.{ℕ, ◌≡◌, refl, true, false, some, ◌==◌, if◌then◌else◌, ==_refl, ==_flip}
use finvo.Prelude.Text.{Text}
use finvo.Prelude.Exec.{ok, final, modify, then-first, then-ok, ◌>>◌}
use finvo.Ledger.Model.{Rates, Booking, plus, minus, times}
use finvo.Ledger.Effects.{apply_account_balance_effect}
use finvo.Ledger.Laws.Pointwise.{delta, shifted, apply_account-lookup}
use finvo.Records.Store.{Entry, Books, Operation, booked, set_entry, is_pending, get_mutable}
use finvo.Records.Operations.{
  linked_account, direction_of, owned, check_account, update_account_association, relink,
  update_transaction_account,
}
use finvo.Records.Laws.Deletion.{as_record_error-ok}

module _ (rates : Rates) (user_base : Text) (k uid a b : ℕ) (s : Books) (entry : Entry)
    (here : s.entries k ≡ some entry) (own : (entry.tx.user_uuid == uid) ≡ true)
    (settled : is_pending entry.tx.status ≡ false) (not_system : entry.is_system ≡ false)
    (linked : linked_account entry.tx ≡ some a) (apart : (a == b) ≡ false)
    (target : owned uid (s.accounts b) ≡ true) (target_active : s.active b ≡ true)
    (returned : (update_transaction_account rates user_base k uid (some b) s).0 ≡ ok tt) where
  undo : Booking (Unit {0})
  undo =
      apply_account_balance_effect rates entry.tx (some a) uid user_base minus
        (direction_of entry.tx) true

  redo : Booking (Unit {0})
  redo =
      apply_account_balance_effect rates entry.tx (some b) uid user_base plus
        (direction_of entry.tx) true

  store : Operation (Unit {0})
  store = modify (set_entry k (some (update_account_association (some b) entry)))

  relink-run :
      update_transaction_account rates user_base k uid (some b) s
      ≡ ((booked undo >> booked redo) >> store) s
  unfolding update_transaction_account get_mutable relink check_account undo redo store
  relink-run = rw (here, own, not_system, linked, apart, target, target_active, settled) refl

  first_two : ((booked undo >> booked redo) s).0 ≡ ok tt
  first_two = then-first (booked undo >> booked redo) store s tt (rw relink-run at returned)

  undone : (booked undo s).0 ≡ ok tt
  undone = then-first (booked undo) (booked redo) s tt first_two

  both : (booked undo >> booked redo) s ≡ booked redo (final (booked undo s))
  both = then-ok (booked undo) (booked redo) s undone

  left :
      final (update_transaction_account rates user_base k uid (some b) s)
      ≡ final (store (final (booked redo (final (booked undo s)))))
  left = rw (relink-run, then-ok (booked undo >> booked redo) store s first_two, both) refl

  accounts_left :
      (j : ℕ)
      → (final (update_transaction_account rates user_base k uid (some b) s)).accounts j
        ≡ final (redo (final (undo s.accounts))) j
  unfolding store
  accounts_left j = rw left refl

  moved_accounts :
      (j : ℕ)
      → (final (update_transaction_account rates user_base k uid (some b) s)).accounts j ≡ (
          let back =
            if a == j
            then shifted
                (delta rates entry.tx uid user_base (times minus (direction_of entry.tx)) true)
                (s.accounts j)
            else s.accounts j in
          if b == j
          then shifted (delta rates entry.tx uid user_base (direction_of entry.tx) true) back
          else back)
  unfolding undo redo
  moved_accounts j =
      rw
        (
          accounts_left j,
          apply_account-lookup rates entry.tx b uid user_base plus (direction_of entry.tx) true
              (final (undo s.accounts)) j
              (as_record_error-ok (redo (final (undo s.accounts))).0 (rw both at first_two)),
          apply_account-lookup rates entry.tx a uid user_base minus (direction_of entry.tx) true
              s.accounts j (as_record_error-ok (undo s.accounts).0 undone),
        )
        refl

  -- If the account of a settled transaction of the user is changed from `a` to another, active
  -- account `b` of the user, and the call returns, then the balance of `a` is changed by the reverse
  -- of the transaction's effect in its currency, the balance of `b` by the effect in its own, and
  -- every other account is as before.
  pub update_transaction_account-moves :
      let after = final (update_transaction_account rates user_base k uid (some b) s) in
      let direction = direction_of entry.tx in
      (after.accounts a
        ≡ shifted (delta rates entry.tx uid user_base (times minus direction) true) (s.accounts a))
      × (after.accounts b
          ≡ shifted (delta rates entry.tx uid user_base direction true) (s.accounts b))
      × ((j : ℕ) → (a == j) ≡ false → (b == j) ≡ false → after.accounts j ≡ s.accounts j)
  update_transaction_account-moves = (
    rw (moved_accounts a, ==_refl a, ==_flip a b apart) refl,
    rw (moved_accounts b, ==_refl b, apart) refl,
    λ j p q. rw (moved_accounts j, p, q) refl,
  )
