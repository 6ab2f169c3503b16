-- ===== src/Records/Laws/Aborts.antt =====
-- An item of a type that no row may have, in a batch (`create_batch_transactions`).
use finvo.Prelude.{
  ◌∙◌, inr, inl, Bool-cases, ℕ, suc, ◌≡◌, refl, ap, Bool, true, false, none, some, List, [], ◌∷◌,
  ◌++◌,
}
use finvo.Prelude.Int.{ℤ, pos, leb_ℤ}
use finvo.Prelude.Text.{Text, or_text, upper}
use finvo.Prelude.Exec.{Outcome, ok, err}
use finvo.Ledger.Model.{Transaction, other_type}
use finvo.Ledger.Convert.{convert_to_user_base}
use finvo.Ledger.Effects.{apply_transaction_balance_effect}
use finvo.Records.Creation.{
  Desk, CreateError, constraint_violated, Submission, insert_booked, is_code, new_transaction,
}
use finvo.Records.Batch.{
  book_new, is_allowed, by_key, book_converted, has_account, Processed, Batch, Item, item_key,
  submission, add_row, after_effect, book_amount, book_item, book_items, create_batch_transactions,
}
use finvo.Records.Laws.Batch.{Result}
use finvo.Records.Laws.Batches.{Run, with_rest, with_first, book_items-cons}

abbrev Raises : Run → Type 0
Raises y = (e : CreateError) × (y.0 ≡ err e)

module _ (b : Batch) (i : Item) (amount : ℤ) (c : ℤ × ℤ) (t : Text) (given : i.amount ≡ some amount)
    (positive : leb_ℤ amount (pos 0) ≡ false)
    (code : is_code (upper (or_text i.currency (i.site.user_base b.user_uuid))) ≡ true)
    (converts : convert_to_user_base i.site.rates i.site.rate i.site.one amount
        (upper (or_text i.currency (i.site.user_base b.user_uuid)))
        (i.site.user_base b.user_uuid)
      ≡ some c)
    (other : i.tx_type ≡ other_type t) (unkeyed : item_key i.idempotency_key ≡ none) where
  -- The type has no effect on the accounts.
  add_row-ok :
      (q : Submission) (tx : Transaction) (s : Desk)
      → tx.tx_type ≡ other_type t
      → (add_row b q i tx s).0 ≡ ok (false, tx.uuid)
  unfolding insert_booked apply_transaction_balance_effect
  add_row-ok q tx s e = elim (Bool-cases (has_account b)) [
    | inl linked ↦ rw (linked, e) refl
    | inr loose ↦ rw loose refl
  ]

  after-raises :
      (uuid : ℕ) (x : Outcome CreateError (Bool × ℕ) × Desk) (r : Bool × ℕ) (s : Desk)
      → x.0 ≡ ok r
      → after_effect b i uuid false x s ≡ (err constraint_violated, s)
  after-raises uuid (ok q, s') r s h = rw unkeyed refl
  after-raises uuid (err e, s') r s h = cc

  abbrev asked : Submission
  asked = submission b i amount (upper (or_text i.currency (i.site.user_base b.user_uuid)))

  book_converted-raises :
      (s : Desk) → book_converted b asked i (some c) s ≡ (err constraint_violated, s)
  book_converted-raises s =
      let tx = new_transaction i.site asked c in
      let row = add_row b asked i tx s in
      ap (λ k. after_effect b i tx.uuid (is_allowed b s.books.accounts k) row s) other
      ∙ after-raises tx.uuid row (false, tx.uuid) s (add_row-ok asked tx s other)

  book_amount-raises : (s : Desk) → book_amount b i amount s ≡ (err constraint_violated, s)
  unfolding book_amount
  book_amount-raises s = rw (positive, code, converts) (book_converted-raises s)

  book_item-raises : (s : Desk) → book_item b i s ≡ (err constraint_violated, s)
  unfolding book_item
  book_item-raises s =
      ap (λ o. by_key b i o s) unkeyed ∙ (ap (λ o. book_new b i o s) given ∙ book_amount-raises s)

  with_rest-Raises : (n : ℕ) (p : Processed) (y : Run) → Raises y → Raises (with_rest n p y)
  with_rest-Raises n p (ok r, s) (e, h) = cc
  with_rest-Raises n p (err x, s) (e, h) = (x, refl)

  book_items-Raises :
      (n : ℕ) (before rest : List Item) (s : Desk) → Raises (book_items b n (before ++ i ∷ rest) s)
  book_items-Raises n [] rest s =
      rw (book_items-cons b n i rest s, book_item-raises s) (constraint_violated, refl)
  book_items-Raises n (j ∷ before) rest s =
      rw (book_items-cons b n j (before ++ i ∷ rest) s)
        (go (book_item b j s) (book_items-Raises (suc n) before rest))
    where
      go :
          (x : Result)
          → ((s' : Desk) → Raises (book_items b (suc n) (before ++ i ∷ rest) s'))
          → Raises (with_first b n (before ++ i ∷ rest) x)
      go (ok p, s') h = with_rest-Raises n p (book_items b (suc n) (before ++ i ∷ rest) s') (h s')
      go (err e, s') h = (e, refl)

  -- An item without a key that passes the validation, but has another type than EXPENSE, INCOME and
  -- TRANSFER, is not reported as failed: a batch with it raises, whatever items stand before and after.
  pub create_batch_transactions-aborts :
      (before rest : List Item) (s : Desk)
      → (e : CreateError) × ((create_batch_transactions b (before ++ i ∷ rest) s).0 ≡ err e)
  unfolding create_batch_transactions
  create_batch_transactions-aborts before rest s = book_items-Raises 0 before rest s
