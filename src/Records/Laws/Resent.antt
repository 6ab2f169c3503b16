-- ===== src/Records/Laws/Resent.antt =====
-- A batch that is sent again, and a batch with an item that no row may hold
-- (`create_batch_transactions`).
use finvo.Prelude.{ℕ, suc, ◌≡◌, refl, true, false, Option, some, List, [], ◌∷◌, map}
use finvo.Prelude.Lists.{length}
use finvo.Prelude.Text.{Text}
use finvo.Prelude.Exec.{ok, err, final}
use finvo.Records.Creation.{Desk, get_by_idempotency_key}
use finvo.Records.Batch.{
  Batch, Item, Processed, created, rejected, replayed, item_key, BatchResult, book_item, book_items,
  create_batch_transactions,
}
use finvo.Records.Laws.Batch.{Result, IsAlone, is_rejected, book_item-Does, Does-IsAlone, Does-own}
use finvo.Records.Laws.Batches.{Run, with_rest, with_first, book_items-cons}

abbrev pub keys : List Item → List (Option Text)
keys items = map (λ i. item_key i.idempotency_key) items

abbrev AllAlone : ℕ → List Text → Desk → Type 0
AllAlone user [] s = Unit
AllAlone user (k ∷ ks) s = IsAlone user k s × AllAlone user ks s

final-with_rest : (index : ℕ) (p : Processed) (y : Run) → final (with_rest index p y) ≡ final y
final-with_rest index p (ok r, s) = refl
final-with_rest index p (err e, s) = refl

book_items-IsAlone :
    (b : Batch) (k : Text) (n : ℕ) (items : List Item) (s : Desk)
    → IsAlone b.user_uuid k s
    → IsAlone b.user_uuid k (final (book_items b n items s))
unfolding book_items
book_items-IsAlone b k n [] s h = h
book_items-IsAlone b k n (i ∷ rest) s h = rw (book_items-cons b n i rest s) (
    go (book_item b i s) (Does-IsAlone b i k s (book_item b i s) (book_item-Does b i s) h)
      (λ t. book_items-IsAlone b k (suc n) rest t))
  where
    go :
        (x : Result)
        → IsAlone b.user_uuid k (final x)
        → ((t : Desk)
            → IsAlone b.user_uuid k t
            → IsAlone b.user_uuid k (final (book_items b (suc n) rest t)))
        → IsAlone b.user_uuid k (final (with_first b n rest x))
    go (ok p, t) h' ih = rw (final-with_rest n p (book_items b (suc n) rest t)) (ih t h')
    go (err e, t) h' ih = h'

-- The batch returns, and no item has failed.
abbrev IsClean : Run → Type 0
IsClean (ok r, s) = r.failed ≡ []
IsClean (err e, s) = false ≡ true

IsClean-rest :
    (n : ℕ) (p : Processed) (y : Run)
    → IsClean (with_rest n p y)
    → (is_rejected p ≡ false) × IsClean y
IsClean-rest n (created uuid) (ok r, s) h = (refl, h)
IsClean-rest n replayed (ok r, s) h = (refl, h)
IsClean-rest n rejected (ok r, s) h = (cc, cc)
IsClean-rest n p (err e, s) h = (cc, h)

module _ (b : Batch) (n : ℕ) (rest : List Item) (k : Text) (ks : List Text)
    (keep : (t : Desk)
      → IsAlone b.user_uuid k t
      → IsAlone b.user_uuid k (final (book_items b (suc n) rest t)))
    (ih : (t : Desk)
      → IsClean (book_items b (suc n) rest t)
      → AllAlone b.user_uuid ks (final (book_items b (suc n) rest t))) where
  first-AllAlone :
      (x : Result)
      → ((p : Processed) → x.0 ≡ ok p → is_rejected p ≡ false → IsAlone b.user_uuid k (final x))
      → IsClean (with_first b n rest x)
      → AllAlone b.user_uuid (k ∷ ks) (final (with_first b n rest x))
  first-AllAlone (ok p, t) own h =
      let (taken, clean) = IsClean-rest n p (book_items b (suc n) rest t) h in
      rw (final-with_rest n p (book_items b (suc n) rest t)) (keep t (own p refl taken), ih t clean)
  first-AllAlone (err e, t) own h = cc

book_items-AllAlone :
    (b : Batch) (n : ℕ) (items : List Item) (ks : List Text) (s : Desk)
    → keys items ≡ map some ks
    → IsClean (book_items b n items s)
    → AllAlone b.user_uuid ks (final (book_items b n items s))
book_items-AllAlone b n items [] s e h = tt
book_items-AllAlone b n [] (k ∷ ks) s e h = cc
book_items-AllAlone b n (i ∷ rest) (k ∷ ks) s e h =
    let first : item_key i.idempotency_key ≡ some k = cc in
    let others : keys rest ≡ map some ks = cc in
    rw (book_items-cons b n i rest s) (
      first-AllAlone b n rest k ks (book_items-IsAlone b k (suc n) rest)
        (λ t. book_items-AllAlone b (suc n) rest ks t others) (book_item b i s)
        (λ p. Does-own b i k s (book_item b i s) p (book_item-Does b i s) first)
        (rw (book_items-cons b n i rest s) at h))

book_item-replayed :
    (b : Batch) (i : Item) (k : Text) (s : Desk)
    → item_key i.idempotency_key ≡ some k
    → IsAlone b.user_uuid k s
    → book_item b i s ≡ (ok replayed, s)
unfolding book_item get_by_idempotency_key
book_item-replayed b i k s e (row, alone) = rw (e, alone) refl

book_items-replayed :
    (b : Batch) (n : ℕ) (items : List Item) (ks : List Text) (s : Desk)
    → keys items ≡ map some ks
    → AllAlone b.user_uuid ks s
    → book_items b n items s
      ≡ (ok record { transactions = []; failed = []; replayed_count = length items }, s)
unfolding book_items
book_items-replayed b n [] [] s e h = refl
book_items-replayed b n [] (k ∷ ks) s e h = cc
book_items-replayed b n (i ∷ rest) [] s e h = cc
book_items-replayed b n (i ∷ rest) (k ∷ ks) s e h =
    let first : item_key i.idempotency_key ≡ some k = cc in
    let others : keys rest ≡ map some ks = cc in
    rw
      (
        book_items-cons b n i rest s,
        book_item-replayed b i k s first h.0,
        book_items-replayed b (suc n) rest ks s others h.1,
      )
      refl

-- A batch whose items all have keys books once: after it returned without failures, another batch of
-- the user with the same keys, whatever its items ask for and meet, replays every item, books nothing
-- and leaves the tables as they are.
pub create_batch_transactions-replays :
    (b b' : Batch) (items items' : List Item) (ks : List Text) (r : BatchResult) (s : Desk)
    → b'.user_uuid ≡ b.user_uuid
    → keys items ≡ map some ks
    → keys items' ≡ map some ks
    → (create_batch_transactions b items s).0 ≡ ok r
    → r.failed ≡ []
    → let s' = final (create_batch_transactions b items s) in
      create_batch_transactions b' items' s'
      ≡ (ok record { transactions = []; failed = []; replayed_count = length items' }, s')
unfolding create_batch_transactions
create_batch_transactions-replays b b' items items' ks r s same e e' h clean =
    book_items-replayed b' 0 items' ks (final (book_items b 0 items s)) e'
      (rw same (book_items-AllAlone b 0 items ks s e (clean_run (book_items b 0 items s) h)))
  where
    clean_run : (y : Run) → y.0 ≡ ok r → IsClean y
    clean_run (ok q, t) h' = let q_r : q ≡ r = cc in rw q_r clean
    clean_run (err x, t) h' = cc
