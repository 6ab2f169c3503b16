-- ===== src/Records/Laws/Batches.antt =====
-- Whole batches (`create_batch_transactions`): the items that are rejected, a batch that is sent again,
-- and an item that no row may hold.
use finvo.Prelude.{ℕ, suc, ◌≡◌, ◌∙◌, refl, sym, false, List, [], ◌∷◌}
use finvo.Prelude.Exec.{Outcome, after, ok, err, final, pure, ◌>>=◌}
use finvo.Records.Creation.{Desk, CreateError}
use finvo.Records.Batch.{
  Batch, Item, Processed, created, rejected, replayed, BatchResult, counted, book_item, book_items,
  create_batch_transactions,
}
use finvo.Records.Laws.Batch.{Result, is_rejected, book_item-Does, Does-rejected}

abbrev pub Run : Type 0
Run = Outcome CreateError BatchResult × Desk

-- the rest of a batch after its first item
abbrev pub with_rest : ℕ → Processed → Run → Run
with_rest index p (ok r, s) = (ok (counted index p r), s)
with_rest index p (err e, s) = (err e, s)

abbrev pub with_first : Batch → ℕ → List Item → Result → Run
with_first b index rest (ok p, s) = with_rest index p (book_items b (suc index) rest s)
with_first b index rest (err e, s) = (err e, s)

pub book_items-cons :
    (b : Batch) (index : ℕ) (i : Item) (rest : List Item) (s : Desk)
    → book_items b index (i ∷ rest) s ≡ with_first b index rest (book_item b i s)
unfolding book_items
book_items-cons b index i rest s = go (book_item b i s)
  where
    last :
        (p : Processed) (y : Run)
        → after y.0 (λ result. pure (counted index p result)) y.1 ≡ with_rest index p y
    last p (ok r, t) = refl
    last p (err e, t) = refl

    go :
        (x : Result)
        → after x.0
            (λ p. book_items b (suc index) rest >>= λ result. pure (counted index p result))
            x.1
          ≡ with_first b index rest x
    go (ok p, t) = last p (book_items b (suc index) rest t)
    go (err e, t) = refl

-- the items of a batch that are not rejected when it runs
abbrev kept_item : Outcome CreateError Processed → Item → List Item → List Item
kept_item (ok rejected) i l = l
kept_item _ i l = i ∷ l

unfoldable pub accepted : Batch → List Item → Desk → List Item
accepted b [] s = []
accepted b (i ∷ rest) s = kept_item (book_item b i s).0 i (accepted b rest (book_item b i s).1)

-- the same without the failures
abbrev pub without_failed : Run → Run
without_failed (ok r, s) = (ok record r { failed = [] }, s)
without_failed (err e, s) = (err e, s)

without_failed-rejected :
    (index : ℕ) (y : Run) → without_failed (with_rest index rejected y) ≡ without_failed y
without_failed-rejected index (ok r, s) = refl
without_failed-rejected index (err e, s) = refl

without_failed-kept :
    (m n : ℕ) (p : Processed) (y : Run)
    → is_rejected p ≡ false
    → with_rest m p (without_failed y) ≡ without_failed (with_rest n p y)
without_failed-kept m n rejected y h = cc
without_failed-kept m n (created uuid) (ok r, s) h = refl
without_failed-kept m n (created uuid) (err e, s) h = refl
without_failed-kept m n replayed (ok r, s) h = refl
without_failed-kept m n replayed (err e, s) h = refl

abbrev AcceptedLaw : Batch → List Item → Type 0
AcceptedLaw b items =
    (m n : ℕ) (s : Desk)
    → book_items b m (accepted b items s) s ≡ without_failed (book_items b n items s)

module _ (b : Batch) (i : Item) (rest : List Item) (ih : AcceptedLaw b rest) (m n : ℕ)
    (s : Desk) where
  kept-accepted :
      (p : Processed) (t : Desk)
      → is_rejected p ≡ false
      → book_item b i s ≡ (ok p, t)
      → book_items b m (i ∷ accepted b rest t) s ≡ without_failed (with_first b n rest (ok p, t))
  kept-accepted p t h e =
      rw (book_items-cons b m i (accepted b rest t) s, e, ih (suc m) (suc n) t)
        (without_failed-kept m n p (book_items b (suc n) rest t) h)

  first-accepted :
      (x : Result)
      → (x.0 ≡ ok rejected → final x ≡ s)
      → book_item b i s ≡ x
      → book_items b m (kept_item x.0 i (accepted b rest x.1)) s
        ≡ without_failed (with_first b n rest x)
  first-accepted (ok rejected, t) same e =
      rw (same refl)
        (ih m (suc n) s ∙ sym (without_failed-rejected n (book_items b (suc n) rest s)))
  first-accepted (ok (created uuid), t) same e = kept-accepted (created uuid) t refl e
  first-accepted (ok replayed, t) same e = kept-accepted replayed t refl e
  first-accepted (err x, t) same e = rw (book_items-cons b m i (accepted b rest t) s, e) refl

book_items-accepted : (b : Batch) (items : List Item) → AcceptedLaw b items
unfolding book_items accepted
book_items-accepted b [] m n s = refl
book_items-accepted b (i ∷ rest) m n s = rw (book_items-cons b n i rest s) (
    first-accepted b i rest (book_items-accepted b rest) m n s (book_item b i s)
      (Does-rejected b i s (book_item b i s) (book_item-Does b i s)) refl)

-- A batch does what it would do without the items that are rejected: it returns the same transactions
-- and replays and leaves the same tables, or raises the same error.
pub create_batch_transactions-accepted :
    (b : Batch) (items : List Item) (s : Desk)
    → create_batch_transactions b (accepted b items s) s
      ≡ without_failed (create_batch_transactions b items s)
unfolding create_batch_transactions
create_batch_transactions-accepted b items s = book_items-accepted b items 0 0 s
