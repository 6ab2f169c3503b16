-- ===== src/Records/Laws/Batch.antt =====
-- What one item of a batch does (`create_batch_transactions`): its effect on the index of keys, and
-- that a rejected item does nothing.
use finvo.Prelude.{
  if◌then◌else◌, ℕ, ◌≡◌, ◌∙◌, sym, refl, ap, Bool, true, false, not, Option, none, some, List, [],
  ◌∷◌, ◌++◌, ==_refl, Bool-cases, inl, inr, arith,
}
use finvo.Prelude.Int.{ℤ, pos, leb_ℤ}
use finvo.Prelude.Lists.{select, select-append}
use finvo.Prelude.Text.{Text, text_eq_refl, text_eq_sound, or_text, upper}
use finvo.Prelude.Exec.{Outcome, ok, err, final, ◌>>=◌}
use finvo.Ledger.Model.{Transaction}
use finvo.Records.Creation.{
  multiple_rows, Keyed, Desk, CreateError, Submission, is_keyed, is_code, one_or_none,
  get_by_idempotency_key, insert_booked, new_transaction,
}
use finvo.Records.Batch.{
  Batch, Item, Processed, created, rejected, replayed, item_key, submission, settled, after_effect,
  add_row, book_converted, book_amount, book_new, unless_booked, by_key, book_item,
}

abbrev pub Result : Type 0
Result = Outcome CreateError Processed × Desk

-- an item that is rejected, or raises, leaves the tables
abbrev pub Spares : Desk → Result → Type 0
Spares s (ok rejected, s') = s' ≡ s
Spares s (ok (created uuid), s') = Unit
Spares s (ok replayed, s') = Unit
Spares s (err e, s') = s' ≡ s

abbrev pub row_of : ℕ → Text → ℕ → Keyed
row_of user key id = record { user_uuid = user; idempotency_key = key; transaction_id = id }

abbrev pub Same : Desk → Desk → Type 0
Same s s' = s'.keyed ≡ s.keyed

-- the row of the item is added to the index
abbrev pub Indexes : ℕ → Option Text → Desk → Desk → Type 0
Indexes user none s s' = Same s s'
Indexes user (some key) s s' = (id : ℕ) × (s'.keyed ≡ s.keyed ++ row_of user key id ∷ [])

-- what an item that is not replayed at once does to the index
abbrev pub Grows : ℕ → Option Text → Desk → Result → Type 0
Grows user key s (ok rejected, s') = Same s s'
Grows user key s (ok (created uuid), s') = Indexes user key s s'
Grows user key s (ok replayed, s') = Indexes user key s s'
Grows user key s (err e, s') = Same s s'

both_branches :
    {A : Type 0} (P : A → Type 0) (c : Bool) (x y : A) → P x → P y → P (if c then x else y)
both_branches P true x y p q = p
both_branches P false x y p q = q

-- the user has one row under the key
abbrev pub IsAlone : ℕ → Text → Desk → Type 0
IsAlone user key s = (row : Keyed) × (select (is_keyed user key) s.keyed ≡ row ∷ [])

-- the row of another key
other_row :
    (user : ℕ) (key t : Text) (id : ℕ) → is_keyed user key (row_of user t id) ≡ true → t ≡ key
other_row user key t id h = text_eq_sound t key (ground (arith, h))

-- A row that is added where there was none leaves one, and one under another key stays alone.
Indexes-IsAlone :
    (user : ℕ) (key : Text) (s s' : Desk)
    → select (is_keyed user key) s.keyed ≡ []
    → Indexes user (some key) s s'
    → IsAlone user key s'
unfolding select
Indexes-IsAlone user key s s' free (id, grown) = (
  row_of user key id,
  rw
      (
        grown,
        select-append (is_keyed user key) s.keyed (row_of user key id ∷ []),
        free,
        ==_refl user,
        text_eq_refl key,
      )
      refl,
)

IsAlone-Indexes :
    (user : ℕ) (key t : Text) (s s' : Desk)
    → select (is_keyed user t) s.keyed ≡ []
    → Indexes user (some t) s s'
    → IsAlone user key s
    → IsAlone user key s'
unfolding select
IsAlone-Indexes user key t s s' free (id, grown) (row, alone) =
    elim (Bool-cases (is_keyed user key (row_of user t id))) [
      | inl same ↦
          let e : t ≡ key = other_row user key t id same in
          let free' : select (is_keyed user key) s.keyed ≡ [] = rw e at free in
          let none_there : row ∷ [] ≡ [] = sym alone ∙ free' in cc
      | inr other ↦ (
        row,
        rw (grown, select-append (is_keyed user key) s.keyed (row_of user t id ∷ []), alone, other)
            refl,
      )
    ]

-- no row under the key, if there is one
abbrev pub IsFree : ℕ → Option Text → Desk → Type 0
IsFree user none s = Unit
IsFree user (some t) s = select (is_keyed user t) s.keyed ≡ []

Indexes-keeps :
    (user : ℕ) (k : Text) (o : Option Text) (s s' : Desk)
    → IsFree user o s
    → Indexes user o s s'
    → IsAlone user k s
    → IsAlone user k s'
Indexes-keeps user k none s s' free grown h = rw grown h
Indexes-keeps user k (some t) s s' free grown h = IsAlone-Indexes user k t s s' free grown h

abbrev pub is_rejected : Processed → Bool
is_rejected rejected = true
is_rejected replayed = false
is_rejected (created uuid) = false

module _ (b : Batch) (i : Item) where
  abbrev key : Option Text
  key = item_key i.idempotency_key

  -- both at once
  abbrev Fits : Desk → Result → Type 0
  Fits s x = Spares s x × Grows b.user_uuid key s x

  settled-Fits :
      (o : Option Text) (allowed : Bool) (rival : Option ℕ) (uuid : ℕ) (s' s : Desk)
      → Same s s'
      → Spares s (settled b.user_uuid o allowed rival uuid s' s)
        × Grows b.user_uuid o s (settled b.user_uuid o allowed rival uuid s' s)
  settled-Fits none true rival uuid s' s h = (tt, h)
  settled-Fits none false rival uuid s' s h = (refl, refl)
  settled-Fits (some t) allowed (some other) uuid s' s h = (tt, (other, refl))
  settled-Fits (some t) true none uuid s' s h = (tt, (uuid, rw h refl))
  settled-Fits (some t) false none uuid s' s h = (refl, refl)

  after_effect-Fits :
      (uuid : ℕ) (allowed : Bool) (x : Outcome CreateError (Bool × ℕ) × Desk) (s : Desk)
      → Same s (final x)
      → Fits s (after_effect b i uuid allowed x s)
  after_effect-Fits uuid allowed (err e, s') s h = (refl, refl)
  after_effect-Fits uuid allowed (ok r, s') s h = settled-Fits key allowed i.site.rival uuid s' s h

  add_row-Same :
      (q : Submission) (tx : Transaction) (s : Desk) → Same s (final (add_row b q i tx s))
  unfolding insert_booked
  add_row-Same q tx s =
      both_branches (λ (x : Outcome CreateError (Bool × ℕ) × Desk). Same s (final x)) _ _ _ refl
        refl

  book_converted-Fits :
      (q : Submission) (o : Option (ℤ × ℤ)) (s : Desk) → Fits s (book_converted b q i o s)
  book_converted-Fits q none s = (refl, refl)
  book_converted-Fits q (some c) s =
      after_effect-Fits _ _ (add_row b q i (new_transaction i.site q c) s) s (add_row-Same q _ s)

  book_amount-Fits : (amount : ℤ) (s : Desk) → Fits s (book_amount b i amount s)
  unfolding book_amount
  book_amount-Fits amount s =
      let currency = upper (or_text i.currency (i.site.user_base b.user_uuid)) in
      let no : Result = (ok rejected, s) in
      both_branches (Fits s) (leb_ℤ amount (pos 0)) no _ (refl, refl)
        (both_branches (Fits s) (not (is_code currency)) no _ (refl, refl)
          (book_converted-Fits (submission b i amount currency) _ s))

  book_new-Fits : (o : Option ℤ) (s : Desk) → Fits s (book_new b i o s)
  book_new-Fits none s = (refl, refl)
  book_new-Fits (some amount) s = book_amount-Fits amount s

  -- what an item does to the tables: a replay, an error, or a row where its key is free
  pub data Does (s : Desk) (x : Result) : Type 0 where
    replays : (t : Text) → key ≡ some t → x ≡ (ok replayed, s) → IsAlone b.user_uuid t s → Does s x
    raises : (e : CreateError) → x ≡ (err e, s) → Does s x
    books : IsFree b.user_uuid key s → Spares s x → Grows b.user_uuid key s x → Does s x

  pub book_item-Does : (s : Desk) → Does s (book_item b i s)
  unfolding book_item get_by_idempotency_key
  book_item-Does s = go key refl
    where
      rows_go :
          (t : Text) (rows : List Keyed)
          → key ≡ some t
          → select (is_keyed b.user_uuid t) s.keyed ≡ rows
          → Does s ((one_or_none rows >>= unless_booked b i) s)
      rows_go t [] e f = let (p, q) = book_new-Fits i.amount s in books (rw e f) p q
      rows_go t (k ∷ []) e f = replays t e refl (k, f)
      rows_go t (k ∷ l ∷ rest) e f = raises multiple_rows refl

      go : (o : Option Text) → key ≡ o → Does s (by_key b i o s)
      go none e = let (p, q) = book_new-Fits i.amount s in books (rw e tt) p q
      go (some t) e = rows_go t (select (is_keyed b.user_uuid t) s.keyed) e refl

  -- A rejected item leaves the tables.
  pub Does-rejected : (s : Desk) (x : Result) → Does s x → x.0 ≡ ok rejected → final x ≡ s
  Does-rejected s (ok rejected, s') (replays t e f a) h = cc
  Does-rejected s (ok rejected, s') (raises e f) h = cc
  Does-rejected s (ok rejected, s') (books free spares grows) h = spares
  Does-rejected s (ok (created uuid), s') d h = cc
  Does-rejected s (ok replayed, s') d h = cc
  Does-rejected s (err e, s') d h = cc

  -- A key with one row keeps it.
  pub Does-IsAlone :
      (k : Text) (s : Desk) (x : Result)
      → Does s x
      → IsAlone b.user_uuid k s
      → IsAlone b.user_uuid k (final x)
  Does-IsAlone k s x (replays t e f a) h = rw f h
  Does-IsAlone k s x (raises e f) h = rw f h
  Does-IsAlone k s (ok rejected, s') (books free spares grows) h = rw grows h
  Does-IsAlone k s (ok (created uuid), s') (books free spares grows) h =
      Indexes-keeps b.user_uuid k key s s' free grows h
  Does-IsAlone k s (ok replayed, s') (books free spares grows) h =
      Indexes-keeps b.user_uuid k key s s' free grows h
  Does-IsAlone k s (err e, s') (books free spares grows) h = rw grows h

  -- The key of an item that is neither rejected nor an error has one row.
  pub Does-own :
      (t : Text) (s : Desk) (x : Result) (p : Processed)
      → Does s x
      → key ≡ some t
      → x.0 ≡ ok p
      → is_rejected p ≡ false
      → IsAlone b.user_uuid t (final x)
  Does-own t s x p (replays u e f a) k h n =
      let same : u ≡ t = cc in
      let left : x.1 ≡ s = ap (λ (y : Result). y.1) f in rw left (rw same at a)
  Does-own t s x p (raises e f) k h n = let raised : x.0 ≡ err e = ap (λ (y : Result). y.0) f in cc
  Does-own t s (ok rejected, s') p (books free spares grows) k h n = cc
  Does-own t s (ok (created uuid), s') p (books free spares grows) k h n =
      Indexes-IsAlone b.user_uuid t s s' (rw k at free) (rw k at grows)
  Does-own t s (ok replayed, s') p (books free spares grows) k h n =
      Indexes-IsAlone b.user_uuid t s s' (rw k at free) (rw k at grows)
  Does-own t s (err e, s') p (books free spares grows) k h n = cc
