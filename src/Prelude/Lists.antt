-- ===== src/Prelude/Lists.antt =====
-- List functions behind the queries of the services: a table is the list of its rows, a WHERE
-- clause is a Boolean test on a row.
use finvo.Prelude.{
  ℕ, suc, ◌+◌, ◌≤◌, ◌≡◌, refl, Bool, true, false, ◌&&◌, inl, inr, List, [], ◌∷◌, ◌++◌, map, arith,
  if◌then◌else◌, Bool-cases,
}

-- 1 for a row that passes the test
abbrev pub hits : Bool → ℕ
hits b = if b then 1 else 0

module _ {ℓ} {A : Type ℓ} where
  abbrev pub length : List A → ℕ
  length [] = 0
  length (x ∷ xs) = suc (length xs)

  -- `SELECT count(*) ... WHERE p`
  unfoldable pub count : (A → Bool) → List A → ℕ
  count p [] = 0
  count p (x ∷ xs) = hits (p x) + count p xs

  -- `SELECT ... WHERE p`
  unfoldable pub select : (A → Bool) → List A → List A
  select p [] = []
  select p (x ∷ xs) = let rest = select p xs in if p x then x ∷ rest else rest

  -- `DELETE ... WHERE p`
  unfoldable pub delete_where : (A → Bool) → List A → List A
  delete_where p [] = []
  delete_where p (x ∷ xs) = let rest = delete_where p xs in if p x then rest else x ∷ rest

  -- `UPDATE ... WHERE p`
  unfoldable pub update_where : (A → Bool) → (A → A) → List A → List A
  update_where p f [] = []
  update_where p f (x ∷ xs) = (if p x then f x else x) ∷ update_where p f xs

  pub count-append : (p : A → Bool) (xs ys : List A) → count p (xs ++ ys) ≡ count p xs + count p ys
  unfolding count
  count-append p [] ys = omega arith
  count-append p (x ∷ xs) ys = omega (arith, count-append p xs ys)

  -- What a deletion takes away is what its query would have selected.
  pub count-delete :
      (p q : A → Bool) (xs : List A)
      → count p (delete_where q xs) + count p (select q xs) ≡ count p xs
  unfolding count delete_where select
  count-delete p q [] = omega arith
  count-delete p q (x ∷ xs) = ground (arith, count-delete p q xs)

  -- An update trades the selected rows for their new versions.
  pub count-update :
      (p q : A → Bool) (f : A → A) (xs : List A)
      → count p (update_where q f xs) + count p (select q xs)
        ≡ count p xs + count p (map f (select q xs))
  unfolding count update_where select
  count-update p q f [] = omega arith
  count-update p q f (x ∷ xs) = ground (arith, count-update p q f xs)

  pub length-select : (p : A → Bool) (xs : List A) → length (select p xs) ≡ count p xs
  unfolding count select
  length-select p [] = refl
  length-select p (x ∷ xs) = ground (arith, length-select p xs)

  -- A selected row passes the test.
  pub select_sound :
      (p : A → Bool) {x : A} {rest : List A} (xs : List A) → select p xs ≡ x ∷ rest → p x ≡ true
  unfolding select
  select_sound p [] e = ground arith
  select_sound p {x} {rest} (y ∷ xs) e = elim (Bool-cases (p y)) [
    | inl h ↦ ground arith
    | inr h ↦ select_sound p {x = x} {rest = rest} xs (ground arith)
  ]

  -- An update of rows that the query sees neither before nor after leaves its answer alone.
  pub select-update_ne :
      (p q : A → Bool) (f : A → A) (xs : List A)
      → ((x : A) → q x ≡ true → (p x ≡ false) × (p (f x) ≡ false))
      → select p (update_where q f xs) ≡ select p xs
  unfolding select update_where
  select-update_ne p q f [] h = refl
  select-update_ne p q f (x ∷ xs) h = ground (arith, select-update_ne p q f xs h, h x)

  -- A query that excludes every deleted row is not affected by the deletion.
  pub select-delete_ne :
      (p q : A → Bool) (xs : List A)
      → ((x : A) → q x ≡ true → p x ≡ false)
      → select p (delete_where q xs) ≡ select p xs
  unfolding select delete_where
  select-delete_ne p q [] h = refl
  select-delete_ne p q (x ∷ xs) h = ground (arith, select-delete_ne p q xs h, h x)

  pub select-delete_self : (p : A → Bool) (xs : List A) → select p (delete_where p xs) ≡ []
  unfolding select delete_where
  select-delete_self p [] = refl
  select-delete_self p (x ∷ xs) = ground (arith, select-delete_self p xs)

  pub select-append :
      (p : A → Bool) (xs ys : List A) → select p (xs ++ ys) ≡ select p xs ++ select p ys
  unfolding select
  select-append p [] ys = refl
  select-append p (x ∷ xs) ys = ground (arith, select-append p xs ys)

  -- Two tests that agree on every row select and count alike.
  pub count_ext : (p q : A → Bool) (xs : List A) → ((x : A) → p x ≡ q x) → count p xs ≡ count q xs
  unfolding count
  count_ext p q [] h = refl
  count_ext p q (x ∷ xs) h = ground (arith, count_ext p q xs h, h x)

  -- A test that is stronger holds of no more rows.
  pub count_mono :
      (p q : A → Bool) (xs : List A) → ((x : A) → p x ≡ true → q x ≡ true) → count p xs ≤ count q xs
  unfolding count
  count_mono p q [] h = omega arith
  count_mono p q (x ∷ xs) h = ground (arith, count_mono p q xs h, h x)

  -- A test that the update does not change counts the same rows.
  pub count-update_keep :
      (p q : A → Bool) (f : A → A) (xs : List A)
      → ((x : A) → p (f x) ≡ p x)
      → count p (update_where q f xs) ≡ count p xs
  unfolding count update_where
  count-update_keep p q f [] h = refl
  count-update_keep p q f (x ∷ xs) h = ground (arith, count-update_keep p q f xs h, h x)

  pub count-delete_ne :
      (p q : A → Bool) (xs : List A)
      → ((x : A) → q x ≡ true → p x ≡ false)
      → count p (delete_where q xs) ≡ count p xs
  unfolding count delete_where
  count-delete_ne p q [] h = refl
  count-delete_ne p q (x ∷ xs) h = ground (arith, count-delete_ne p q xs h, h x)

  -- Nothing is left of what the deletion covers.
  pub count-delete_all :
      (p q : A → Bool) (xs : List A)
      → ((x : A) → p x ≡ true → q x ≡ true)
      → count p (delete_where q xs) ≡ 0
  unfolding count delete_where
  count-delete_all p q [] h = refl
  count-delete_all p q (x ∷ xs) h = ground (arith, count-delete_all p q xs h, h x)

  pub count-delete-le : (p q : A → Bool) (xs : List A) → count p (delete_where q xs) ≤ count p xs
  count-delete-le p q xs = omega (arith, count-delete p q xs)

  -- An update that makes no row pass that did not.
  pub count-update-le :
      (p q : A → Bool) (f : A → A) (xs : List A)
      → ((x : A) → p (f x) ≡ true → p x ≡ true)
      → count p (update_where q f xs) ≤ count p xs
  unfolding count update_where
  count-update-le p q f [] h = omega arith
  count-update-le p q f (x ∷ xs) h = ground (arith, count-update-le p q f xs h, h x)

  -- An update that makes none of the rows that it changes pass that did not.
  pub count-update_some_le :
      (p q : A → Bool) (f : A → A) (xs : List A)
      → ((x : A) → q x ≡ true → p (f x) ≡ true → p x ≡ true)
      → count p (update_where q f xs) ≤ count p xs
  unfolding count update_where
  count-update_some_le p q f [] h = omega arith
  count-update_some_le p q f (x ∷ xs) h = ground (arith, count-update_some_le p q f xs h, h x)

  -- A conjunction selects in two passes.
  pub select-select :
      (p q : A → Bool) (xs : List A) → select (λ x. p x && q x) xs ≡ select q (select p xs)
  unfolding select
  select-select p q [] = refl
  select-select p q (x ∷ xs) = ground (arith, select-select p q xs)

  pub count-of_select :
      (p q : A → Bool) {x : A} (xs : List A) → select p xs ≡ x ∷ [] → q x ≡ true → 1 ≤ count q xs
  unfolding select count
  count-of_select p q [] e h = ground arith
  count-of_select p q {x} (y ∷ xs) e h = elim (Bool-cases (p y)) [
    | inl t ↦ ground arith
    | inr f ↦ omega (arith, count-of_select p q {x = x} xs (rw f at e) h)
  ]

  -- An update of the selected rows is seen by the query that selects them.
  pub select-update_self :
      (p : A → Bool) (f : A → A) (xs : List A)
      → ((x : A) → p (f x) ≡ p x)
      → select p (update_where p f xs) ≡ map f (select p xs)
  unfolding select update_where
  select-update_self p f [] h = refl
  select-update_self p f (x ∷ xs) h = ground (arith, select-update_self p f xs h, h x)

module _ {ℓ} {A : Type ℓ} where
  -- every row passes the test
  unfoldable pub all : (A → Bool) → List A → Bool
  all p [] = true
  all p (x ∷ xs) = p x && all p xs

  pub all-append :
      (p : A → Bool) (xs : List A) (y : A)
      → all p xs ≡ true
      → p y ≡ true
      → all p (xs ++ y ∷ []) ≡ true
  unfolding all
  all-append p [] y h k = ground arith
  all-append p (x ∷ xs) y h k = ground (arith, all-append p xs y)

  pub all-delete :
      (p q : A → Bool) (xs : List A) → all p xs ≡ true → all p (delete_where q xs) ≡ true
  unfolding all delete_where
  all-delete p q [] h = refl
  all-delete p q (x ∷ xs) h = ground (arith, all-delete p q xs)

  pub all-implies :
      (p q : A → Bool) (xs : List A)
      → ((x : A) → p x ≡ true → q x ≡ true)
      → all p xs ≡ true
      → all q xs ≡ true
  unfolding all
  all-implies p q [] k h = refl
  all-implies p q (x ∷ xs) k h = ground (arith, all-implies p q xs k, k x)

  -- the updated rows pass, and so do the others
  pub all-update :
      (p q test : A → Bool) (f : A → A) (xs : List A)
      → ((x : A) → test x ≡ true → p x ≡ true → q (f x) ≡ true)
      → ((x : A) → test x ≡ false → p x ≡ true → q x ≡ true)
      → all p xs ≡ true
      → all q (update_where test f xs) ≡ true
  unfolding all update_where
  all-update p q test f [] k k' h = refl
  all-update p q test f (x ∷ xs) k k' h = elim (Bool-cases (test x)) [
    | inl hit ↦ rw (hit, all) (ground (arith, all-update p q test f xs k k', k x hit))
    | inr miss ↦ rw (miss, all) (ground (arith, all-update p q test f xs k k', k' x miss))
  ]
