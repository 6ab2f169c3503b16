-- ===== src/Records/Laws/Booked.antt =====
-- What a call of `create_transaction` without a key leaves if it returns.
use finvo.Prelude.{
  ℕ, ◌≡◌, refl, Bool, true, false, not, Option, none, some, ==_refl, Bool-cases, inl, inr,
}
use finvo.Prelude.Int.{ℤ, pos, abs, leb_ℤ}
use finvo.Prelude.Text.{Text, upper}
use finvo.Prelude.Exec.{
  Outcome, after, ok, err, raise_if, or_raise, final, pure, ◌>>=◌, ◌>>◌, Ensures, reads-Ensures,
}
use finvo.Ledger.Model.{FinancialAccount, Accounts, Transaction, LedgerError, plus}
use finvo.Ledger.Convert.{convert_to_user_base}
use finvo.Ledger.Effects.{apply_transaction_balance_effect}
use finvo.Ledger.Laws.Booking.{each_item-lookup, total}
use finvo.Ledger.Laws.Items.{amount_of, apply_transaction-items, fails, items, step, step-StepLaws}
use finvo.Ledger.Laws.Pointwise.{shifted}
use finvo.Records.Creation.{
  Desk, Submission, Surroundings, check_owned, create_new, create_transaction, create_under, insert,
  insert_booked, of_effect, with_accounts, with_transaction, CreateError, invalid_currency, is_code,
  is_type, new_transaction, no_rate, type_refused,
}
use finvo.Records.Laws.Creation.{check_owned-final}

-- The new row `r.1` is in the table, and the balances of the accounts alone have changed.
pub record IsBooked (site : Surroundings) (q : Submission) (s : Desk) (r : Bool × ℕ) (s' : Desk)
    : Type 0 where
  pub converted : ℤ × ℤ
  pub entry :
      s'.books.entries r.1
      ≡ some record { tx = new_transaction site q converted; is_system = false }
  pub shift : ℕ → FinancialAccount → ℤ
  pub rows : (k : ℕ) → s'.books.accounts k ≡ shifted (shift k) (s.books.accounts k)

module _ (site : Surroundings) (q : Submission) (c : ℤ × ℤ) (s : Desk) where
  abbrev row : Transaction
  row = new_transaction site q c

  abbrev effect : Accounts → Outcome LedgerError (Unit {0}) × Accounts
  effect =
      apply_transaction_balance_effect site.rates (site.user_base q.user_uuid) row q.user_uuid plus
        q.source_account_id q.target_account_id true true

  abbrev shift_of : ℕ → FinancialAccount → ℤ
  shift_of =
      total (amount_of site.rates row q.user_uuid (site.user_base q.user_uuid) true plus)
        (items true row.tx_type q.source_account_id q.target_account_id)

  effect-rows :
      (k : ℕ)
      → (effect s.books.accounts).0 ≡ ok tt
      → final (effect s.books.accounts) k ≡ shifted (shift_of k) (s.books.accounts k)
  effect-rows k h =
      let base = site.user_base q.user_uuid in
      let as_items =
        apply_transaction-items site.rates row q.user_uuid base true plus q.source_account_id
          q.target_account_id true s.books.accounts in
      rw as_items (
        each_item-lookup (step site.rates row q.user_uuid base true plus)
          (amount_of site.rates row q.user_uuid base true plus)
          (fails site.rates row q.user_uuid base true)
          (step-StepLaws site.rates row q.user_uuid base true plus)
          (items true row.tx_type q.source_account_id q.target_account_id) s.books.accounts k
          (rw as_items at h))

  insert_booked-IsBooked : Ensures (IsBooked site q s) (insert_booked site q row s)
  unfolding insert_booked
  insert_booked-IsBooked = go (effect s.books.accounts) (λ k h. effect-rows k h)
    where
      go :
          (x : Outcome LedgerError (Unit {0}) × Accounts)
          → ((k : ℕ) → x.0 ≡ ok tt → final x k ≡ shifted (shift_of k) (s.books.accounts k))
          → Ensures
              (IsBooked site q s)
              (of_effect row.uuid x.0, with_accounts x.1 (with_transaction row s))
      go (err e, accounts) h = tt
      go (ok tt, accounts) h = record {
        converted = c;
        entry = rw (==_refl row.uuid) refl;
        shift = shift_of;
        rows = λ k. h k refl;
      }

  insert-IsBooked : Ensures (IsBooked site q s) (insert site q none row s)
  insert-IsBooked = go (insert_booked site q row s) insert_booked-IsBooked (is_type q.tx_type)
    where
      go :
          (x : Outcome CreateError (Bool × ℕ) × Desk)
          → Ensures (IsBooked site q s) x
          → (b : Bool)
          → Ensures
              (IsBooked site q s)
              (after x.0 (λ made. raise_if (not b) type_refused >> pure made) x.1)
      go (ok r, s') h true = h
      go (ok r, s') h false = tt
      go (err e, s') h b = tt

create_new-IsBooked :
    (site : Surroundings) (q : Submission) (s : Desk)
    → Ensures (IsBooked site q s) (create_new site q none s)
unfolding create_new
create_new-IsBooked site q s =
    reads-Ensures (IsBooked site q s) (check_owned q.source_account_id q.user_uuid) _ s
      (check_owned-final q.source_account_id q.user_uuid s)
      (λ _ _.
        reads-Ensures (IsBooked site q s) (check_owned q.target_account_id q.user_uuid) _ s
          (check_owned-final q.target_account_id q.user_uuid s)
          (λ _ _.
            reads-Ensures (IsBooked site q s)
              (raise_if (not (is_code (upper q.currency))) invalid_currency) _ s refl
              (λ _ _. converts (
                convert_to_user_base site.rates site.rate site.one (abs q.amount) (upper q.currency)
                  (site.user_base q.user_uuid)))))
  where
    converts :
        (o : Option (ℤ × ℤ))
        → Ensures
            (IsBooked site q s)
            ((or_raise o no_rate >>= λ c. insert site q none (new_transaction site q c)) s)
    converts none = tt
    converts (some c) = insert-IsBooked site q c s

pub create_transaction-IsBooked :
    (site : Surroundings) (q : Submission) (s : Desk)
    → q.idempotency_key ≡ none
    → Ensures (IsBooked site q s) (create_transaction site q s)
unfolding create_transaction
create_transaction-IsBooked site q s e = elim (Bool-cases (leb_ℤ q.amount (pos 0))) [
  | inl refused ↦ rw refused tt
  | inr positive ↦ rw positive (without_key q.idempotency_key e)
]
  where
    without_key :
        (key : Option Text) → key ≡ none → Ensures (IsBooked site q s) (create_under site q key s)
    without_key none h = create_new-IsBooked site q s
    without_key (some key) h = cc
