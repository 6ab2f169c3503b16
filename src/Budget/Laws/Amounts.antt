-- ===== src/Budget/Laws/Amounts.antt =====
-- The amounts of a table of budgets under its UPDATE statements.
use finvo.Prelude.{ℕ, ◌≡◌, refl, Bool, true, false, arith, Bool-cases, inl, inr, List, [], ◌∷◌}
use finvo.Prelude.Int.{ℤ, pos, ◌+ℤ◌, ◌-ℤ◌, ltb_ℤ, leb_ℤ, int_laws, +ℤ_parts, -ℤ_parts}
use finvo.Prelude.Lists.{count, update_where}
use finvo.Budget.Store.{Budget, has_id}
use finvo.Budget.Service.{can_pay, shifted}

-- the sum of the amounts
unfoldable pub total : List Budget → ℤ
total [] = pos 0
total (b ∷ rest) = b.amount +ℤ total rest

unfoldable pub is_overdrawn : Budget → Bool
is_overdrawn b = ltb_ℤ b.amount (pos 0)

update_where_none :
    {A : Type 0} (q : A → Bool) (f : A → A) (xs : List A)
    → count q xs ≡ 0
    → update_where q f xs ≡ xs
unfolding count update_where
update_where_none q f [] h = refl
update_where_none q f (x ∷ xs) h = ground (arith, update_where_none q f xs (ground arith))

pub total-update_keep :
    (q : Budget → Bool) (f : Budget → Budget) (bs : List Budget)
    → ((x : Budget) → (f x).amount ≡ x.amount)
    → total (update_where q f bs) ≡ total bs
unfolding total update_where
total-update_keep q f [] h = refl
total-update_keep q f (x ∷ bs) h = ground (arith, total-update_keep q f bs h, h x)

pub total-credit :
    (q : Budget → Bool) (a : ℤ) (bs : List Budget)
    → count q bs ≡ 1
    → total (update_where q (shifted (λ x. x +ℤ a)) bs) ≡ total bs +ℤ a
unfolding total update_where count
total-credit q a [] h = ground arith
total-credit q a (x ∷ bs) h = elim (Bool-cases (q x)) [
  | inl e ↦
      let rest = update_where_none q (shifted (λ x. x +ℤ a)) bs (ground arith) in
      rw (e, rest) (omega int_laws)
  | inr e ↦ let rest = total-credit q a bs (ground arith) in rw (e, rest) (omega int_laws)
]

pub total-debit :
    (q : Budget → Bool) (a : ℤ) (bs : List Budget)
    → count q bs ≡ 1
    → total (update_where q (shifted (λ x. x -ℤ a)) bs) ≡ total bs -ℤ a
unfolding total update_where count
total-debit q a [] h = ground arith
total-debit q a (x ∷ bs) h = elim (Bool-cases (q x)) [
  | inl e ↦
      let rest = update_where_none q (shifted (λ x. x -ℤ a)) bs (ground arith) in
      rw (e, rest) (omega int_laws)
  | inr e ↦ let rest = total-debit q a bs (ground arith) in rw (e, rest) (omega int_laws)
]

pub debit_over :
    (k : ℕ) (a : ℤ) (x : Budget)
    → can_pay k a x ≡ true
    → is_overdrawn (shifted (λ y. y -ℤ a) x) ≡ true
    → is_overdrawn x ≡ true
unfolding is_overdrawn
debit_over k a x h o = ground (arith, -ℤ_parts x.amount a)

pub credit_over :
    (k : ℕ) (a : ℤ)
    → leb_ℤ a (pos 0) ≡ false
    → (x : Budget) → has_id k x ≡ true
    → is_overdrawn (shifted (λ y. y +ℤ a) x) ≡ true
    → is_overdrawn x ≡ true
unfolding is_overdrawn
credit_over k a positive x h o = ground (arith, +ℤ_parts x.amount a)

pub add_back : (t a : ℤ) → (t -ℤ a) +ℤ a ≡ t
add_back t a = omega int_laws
