-- ===== src/Settlement/Laws/Paid.antt =====
-- What the users pay and are paid in a list of payments, and how printing rounds it.
use finvo.Prelude.Lists.{count}
use finvo.Prelude.{
  ℕ, ◌+◌, ◌*◌, ◌≤◌, ◌≡◌, List, [], ◌∷◌, ◌++◌, arith, ◌==◌, if◌then◌else◌, Bool-cases, inl, inr,
}
use finvo.Settlement.Payments.{Payment, Shares, entry, printed}

-- what the user with the key `u` pays, is paid, and has as a share
unfoldable pub paid_by : ℕ → List Payment → ℕ
paid_by u [] = 0
paid_by u (p ∷ rest) = (if p.from_user == u then p.amount else 0) + paid_by u rest

unfoldable pub paid_to : ℕ → List Payment → ℕ
paid_to u [] = 0
paid_to u (p ∷ rest) = (if p.to_user == u then p.amount else 0) + paid_to u rest

unfoldable pub share_of : ℕ → Shares → ℕ
share_of u [] = 0
share_of u ((k, x) ∷ rest) = (if k == u then x else 0) + share_of u rest

-- `cent` for each payment by the user, or to the user
unfoldable pub cents_by : ℕ → ℕ → List Payment → ℕ
cents_by u cent [] = 0
cents_by u cent (p ∷ rest) = (if p.from_user == u then cent else 0) + cents_by u cent rest

unfoldable pub cents_to : ℕ → ℕ → List Payment → ℕ
cents_to u cent [] = 0
cents_to u cent (p ∷ rest) = (if p.to_user == u then cent else 0) + cents_to u cent rest

abbrev pub payments_by : ℕ → List Payment → ℕ
payments_by u items = count (λ p. p.from_user == u) items

abbrev pub payments_to : ℕ → List Payment → ℕ
payments_to u items = count (λ p. p.to_user == u) items

pub cents_by-count :
    (u cent : ℕ) (items : List Payment) → cents_by u cent items ≡ cent * payments_by u items
unfolding cents_by count
cents_by-count u cent [] = omega arith
cents_by-count u cent (p ∷ rest) = elim (Bool-cases (p.from_user == u)) [
  | inl same ↦ rw (same, cents_by-count u cent rest) (grind arith)
  | inr other ↦ rw (other, cents_by-count u cent rest) (grind arith)
]

pub cents_to-count :
    (u cent : ℕ) (items : List Payment) → cents_to u cent items ≡ cent * payments_to u items
unfolding cents_to count
cents_to-count u cent [] = omega arith
cents_to-count u cent (p ∷ rest) = elim (Bool-cases (p.to_user == u)) [
  | inl same ↦ rw (same, cents_to-count u cent rest) (grind arith)
  | inr other ↦ rw (other, cents_to-count u cent rest) (grind arith)
]

-- Printing adds at most half a cent.
printed-le : (cent x : ℕ) → 2 * printed cent x ≤ 2 * x + cent
unfolding printed
printed-le cent x = grind arith

pub paid_to-append :
    (u : ℕ) (xs ys : List Payment) → paid_to u (xs ++ ys) ≡ paid_to u xs + paid_to u ys
unfolding paid_to
paid_to-append u [] ys = omega arith
paid_to-append u (p ∷ xs) ys = omega (arith, paid_to-append u xs ys)

pub paid_by-append :
    (u : ℕ) (xs ys : List Payment) → paid_by u (xs ++ ys) ≡ paid_by u xs + paid_by u ys
unfolding paid_by
paid_by-append u [] ys = omega arith
paid_by-append u (p ∷ xs) ys = omega (arith, paid_by-append u xs ys)

pub cents_to-append :
    (u c : ℕ) (xs ys : List Payment) → cents_to u c (xs ++ ys) ≡ cents_to u c xs + cents_to u c ys
unfolding cents_to
cents_to-append u c [] ys = omega arith
cents_to-append u c (p ∷ xs) ys = omega (arith, cents_to-append u c xs ys)

pub cents_by-append :
    (u c : ℕ) (xs ys : List Payment) → cents_by u c (xs ++ ys) ≡ cents_by u c xs + cents_by u c ys
unfolding cents_by
cents_by-append u c [] ys = omega arith
cents_by-append u c (p ∷ xs) ys = omega (arith, cents_by-append u c xs ys)

pub paid_to-entry :
    (u cent d c x : ℕ)
    → 2 * paid_to u (entry cent d c x)
      ≤ (if c == u then 2 * x else 0) + cents_to u cent (entry cent d c x)
unfolding paid_to cents_to
paid_to-entry u cent d c x = let close = printed-le cent x in ground arith

pub paid_by-entry :
    (u cent d c x : ℕ)
    → 2 * paid_by u (entry cent d c x)
      ≤ (if d == u then 2 * x else 0) + cents_by u cent (entry cent d c x)
unfolding paid_by cents_by
paid_by-entry u cent d c x = let close = printed-le cent x in ground arith
