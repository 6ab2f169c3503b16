-- ===== src/Records/Laws/Creation.antt =====
-- Submissions under idempotency keys (`create_transaction`).
use finvo.Prelude.{
  ℕ, ◌≡◌, refl, sym, Bool, true, false, not, Option, none, some, List, [], ◌∷◌, ==_refl, Bool-cases,
  inl, inr,
}
use mathlib.Core.Path.{subst}
use finvo.Prelude.Int.{ℤ, pos, abs, leb_ℤ}
use finvo.Prelude.Lists.{select, select-append}
use finvo.Prelude.Text.{Text, text_eq_refl, upper}
use finvo.Prelude.Exec.{
  Outcome, ok, err, raise_if, or_raise, final, ◌>>=◌, Ensures, reads-Ensures, of_ensures,
}
use finvo.Ledger.Model.{Transaction}
use finvo.Ledger.Convert.{convert_to_user_base}
use finvo.Records.Creation.{
  flushed, Keyed, Desk, CreateError, Submission, Surroundings, is_keyed, one_or_none,
  get_by_idempotency_key, check_owned, is_code, invalid_currency, no_rate, new_transaction, indexed,
  insert_booked, flushed, is_type, insert_under, insert, create_new, replay_or, create_under,
  create_transaction,
}

-- The transaction `r.1` is the one row under the key.
record IsIndexed (user_uuid : ℕ) (key : Text) (r : Bool × ℕ) (s : Desk) : Type 0 where
  row : Keyed
  alone : select (is_keyed user_uuid key) s.keyed ≡ row ∷ []
  same : row.transaction_id ≡ r.1

pub check_owned-final : (o : Option ℕ) (u : ℕ) (s : Desk) → final (check_owned o u s) ≡ s
unfolding check_owned
check_owned-final none u s = refl
check_owned-final (some k) u s = refl

insert_booked-keyed :
    (site : Surroundings) (q : Submission) (tx : Transaction) (s : Desk)
    → (final (insert_booked site q tx s)).keyed ≡ s.keyed
unfolding insert_booked
insert_booked-keyed site q tx s = refl

indexed-alone :
    (user_uuid : ℕ) (key : Text) (transaction_id : ℕ) (s s' : Desk)
    → select (is_keyed user_uuid key) s.keyed ≡ []
    → s'.keyed ≡ s.keyed
    → select
        (is_keyed user_uuid key)
        (indexed
          record { user_uuid = user_uuid; idempotency_key = key; transaction_id = transaction_id }
          s').keyed
      ≡ record { user_uuid = user_uuid; idempotency_key = key; transaction_id = transaction_id }
        ∷ []
unfolding select
indexed-alone user_uuid key transaction_id s s' none_there kept =
    let k : Keyed = record {
      user_uuid = user_uuid;
      idempotency_key = key;
      transaction_id = transaction_id;
    } in
    rw
      (
        kept,
        select-append (is_keyed user_uuid key) s.keyed (k ∷ []),
        none_there,
        ==_refl user_uuid,
        text_eq_refl key,
      )
      refl

flushed-IsIndexed :
    (q : Submission) (key : Text) (right : Bool) (x : Outcome CreateError (Bool × ℕ) × Desk)
    (rival : Option ℕ) (s : Desk)
    → select (is_keyed q.user_uuid key) s.keyed ≡ []
    → (final x).keyed ≡ s.keyed
    → Ensures (IsIndexed q.user_uuid key) (flushed q key right x rival s)
flushed-IsIndexed q key right (err e, s') rival s none_there kept = tt
flushed-IsIndexed q key false (ok (replay, uuid), s') none s none_there kept = tt
flushed-IsIndexed q key true (ok (replay, uuid), s') none s none_there kept = record {
  row = record { user_uuid = q.user_uuid; idempotency_key = key; transaction_id = uuid };
  alone = indexed-alone q.user_uuid key uuid s s' none_there kept;
  same = refl;
}
flushed-IsIndexed q key right (ok result, s') (some other) s none_there kept = record {
  row = record { user_uuid = q.user_uuid; idempotency_key = key; transaction_id = other };
  alone = indexed-alone q.user_uuid key other s s none_there refl;
  same = refl;
}

insert_under-IsIndexed :
    (site : Surroundings) (q : Submission) (key : Text) (tx : Transaction) (s : Desk)
    → select (is_keyed q.user_uuid key) s.keyed ≡ []
    → Ensures (IsIndexed q.user_uuid key) (insert_under site q key tx s)
insert_under-IsIndexed site q key tx s none_there =
    flushed-IsIndexed q key (is_type tx.tx_type) (insert_booked site q tx s) site.rival s none_there
      (insert_booked-keyed site q tx s)

create_new-IsIndexed :
    (site : Surroundings) (q : Submission) (key : Text) (s : Desk)
    → select (is_keyed q.user_uuid key) s.keyed ≡ []
    → Ensures (IsIndexed q.user_uuid key) (create_new site q (some key) s)
unfolding create_new
create_new-IsIndexed site q key s none_there =
    reads-Ensures Q (check_owned q.source_account_id q.user_uuid) _ s
      (check_owned-final q.source_account_id q.user_uuid s)
      (λ _ _.
        reads-Ensures Q (check_owned q.target_account_id q.user_uuid) _ s
          (check_owned-final q.target_account_id q.user_uuid s)
          (λ _ _.
            reads-Ensures Q (raise_if (not (is_code (upper q.currency))) invalid_currency) _ s refl
              (λ _ _. converts (
                convert_to_user_base site.rates site.rate site.one (abs q.amount) (upper q.currency)
                  (site.user_base q.user_uuid)))))
  where
    Q : Bool × ℕ → Desk → Type 0
    Q = IsIndexed q.user_uuid key

    converts :
        (o : Option (ℤ × ℤ))
        → Ensures
            (IsIndexed q.user_uuid key)
            ((or_raise o no_rate >>= λ c. insert site q (some key) (new_transaction site q c)) s)
    converts none = tt
    converts (some c) = insert_under-IsIndexed site q key (new_transaction site q c) s none_there

create_under-IsIndexed :
    (site : Surroundings) (q : Submission) (c : ℕ) (key : Text) (s : Desk)
    → Ensures (IsIndexed q.user_uuid (c ∷ key)) (create_under site q (some (c ∷ key)) s)
unfolding get_by_idempotency_key
create_under-IsIndexed site q c key s = go (select (is_keyed q.user_uuid (c ∷ key)) s.keyed) refl
  where
    go :
        (rows : List Keyed)
        → select (is_keyed q.user_uuid (c ∷ key)) s.keyed ≡ rows
        → Ensures (IsIndexed q.user_uuid (c ∷ key)) (
            (one_or_none rows >>= λ existing.
            replay_or existing (create_new site q (some (c ∷ key))))
              s)
    go [] e = create_new-IsIndexed site q (c ∷ key) s e
    go (k ∷ []) e = record { row = k; alone = e; same = refl }
    go (k ∷ l ∷ rest) e = tt

create_transaction-IsIndexed :
    (site : Surroundings) (q : Submission) (c : ℕ) (key : Text) (s : Desk)
    → q.idempotency_key ≡ some (c ∷ key)
    → Ensures (IsIndexed q.user_uuid (c ∷ key)) (create_transaction site q s)
unfolding create_transaction
create_transaction-IsIndexed site q c key s e = elim (Bool-cases (leb_ℤ q.amount (pos 0))) [
  | inl refused ↦ rw refused tt
  | inr positive ↦ rw (positive, e) (create_under-IsIndexed site q c key s)
]

replays :
    (site : Surroundings) (q : Submission) (c : ℕ) (key : Text) (r : Bool × ℕ) (s : Desk)
    → q.idempotency_key ≡ some (c ∷ key)
    → leb_ℤ q.amount (pos 0) ≡ false
    → IsIndexed q.user_uuid (c ∷ key) r s
    → ((create_transaction site q s).0 ≡ ok (true, r.1)) × (final (create_transaction site q s) ≡ s)
unfolding create_transaction get_by_idempotency_key
replays site q c key r s e positive there = rw (positive, e, there.alone, there.same) (refl, refl)

-- A submission under a key that is not empty books once: after one that returned, the next
-- submission of the user under this key, if its amount is positive, returns the same transaction as
-- a replay and changes nothing, whatever it asks for, and with whatever rates and rows of other
-- workers each of the two meets.
pub create_transaction-replays :
    (site site' : Surroundings) (q q' : Submission) (c : ℕ) (key : Text) (r : Bool × ℕ) (s : Desk)
    → q.idempotency_key ≡ some (c ∷ key)
    → q'.idempotency_key ≡ some (c ∷ key)
    → q'.user_uuid ≡ q.user_uuid
    → leb_ℤ q'.amount (pos 0) ≡ false
    → (create_transaction site q s).0 ≡ ok r
    → ((create_transaction site' q' (final (create_transaction site q s))).0 ≡ ok (true, r.1))
      × (final (create_transaction site' q' (final (create_transaction site q s)))
          ≡ final (create_transaction site q s))
create_transaction-replays site site' q q' c key r s e e' u positive h =
    let there =
      of_ensures (IsIndexed q.user_uuid (c ∷ key)) (create_transaction site q s) r
        (create_transaction-IsIndexed site q c key s e) h in
    replays site' q' c key r (final (create_transaction site q s)) e' positive
      (subst (λ v. IsIndexed v (c ∷ key) r (final (create_transaction site q s))) (sym u) there)
