-- ===== src/Ledger/Laws/Sum.antt =====
-- A step that does what two steps do together, on a list of items.
use finvo.Prelude.{
  Bool, Bool-cases, List, Option, [], ap, arith, if◌then◌else◌, inl, inr, none, refl, some, ℕ, ◌==◌,
  ◌||◌, ◌∷◌, ◌≡◌,
}
use finvo.Prelude.Int.{int_laws, ℤ, ◌+ℤ◌}
use finvo.Prelude.Exec.{err, final, ok, then-err, then-first, then-ok, ◌>>◌}
use finvo.Ledger.Model.{Accounts, Booking, FinancialAccount, Sign, exchange_rate_unavailable, moved}
use finvo.Ledger.Effects.{each_item}
use finvo.Ledger.Laws.Pointwise.{shifted}
use finvo.Ledger.Laws.Booking.{
  SameBooking, StepLaws, any_fails, any_fails-ext, each_item-lookup, each_item-status, total,
  total-moved,
}

total-sum :
    (m n : Sign → FinancialAccount → ℤ) (its : List (ℕ × Sign)) (j : ℕ) (a : FinancialAccount)
    → total (λ d b. m d b +ℤ n d b) its j a ≡ total m its j a +ℤ total n its j a
total-sum m n [] j a = omega int_laws
total-sum m n ((k, d) ∷ rest) j a = elim (Bool-cases (k == j)) [
  | inl same ↦ rw (same, total-sum m n rest j a) (omega int_laws)
  | inr other ↦ rw (other, total-sum m n rest j a) (omega int_laws)
]

any_fails-sum :
    (b c : Option FinancialAccount → Bool) (its : List (ℕ × Sign)) (accounts : Accounts)
    → any_fails (λ o. b o || c o) its accounts
      ≡ (any_fails b its accounts || any_fails c its accounts)
any_fails-sum b c [] accounts = refl
any_fails-sum b c ((k, d) ∷ rest) accounts =
    rw (any_fails-sum b c rest accounts) (
      four (b (accounts k)) (c (accounts k)) (any_fails b rest accounts)
        (any_fails c rest accounts))
  where
    four : (x y z w : Bool) → ((x || y) || (z || w)) ≡ ((x || z) || (y || w))
    four x y z w = ground arith

shifted-sum :
    (d e f : FinancialAccount → ℤ) (o : Option FinancialAccount)
    → ((a : FinancialAccount) (x : ℤ) → e (moved a x) ≡ e a)
    → ((a : FinancialAccount) → f a ≡ d a +ℤ e a)
    → shifted f o ≡ shifted e (shifted d o)
shifted-sum d e f none h k = refl
shifted-sum d e f (some a) h k =
    rw (h, k) (ap (λ (b : ℤ). some (record a { current_balance = b })) (omega int_laws))

module _ (f g h : ℕ → Sign → Booking (Unit {0})) (m n : Sign → FinancialAccount → ℤ)
    (b c : Option FinancialAccount → Bool)
    (f_laws : StepLaws f (λ d a. m d a +ℤ n d a) (λ o. b o || c o)) (g_laws : StepLaws g m b)
    (h_laws : StepLaws h n c) where
  any_fails-after :
      (its : List (ℕ × Sign)) (accounts : Accounts)
      → (each_item g its accounts).0 ≡ ok tt
      → any_fails c its (final (each_item g its accounts)) ≡ any_fails c its accounts
  any_fails-after its accounts e =
      any_fails-ext c its (final (each_item g its accounts)) accounts (λ j.
        rw (each_item-lookup g m b g_laws its accounts j e)
          (h_laws.same_test (total m its j) (accounts j)))

  both-status :
      (its : List (ℕ × Sign)) (accounts : Accounts)
      → ((each_item g its >> each_item h its) accounts).0 ≡ (
          if any_fails b its accounts || any_fails c its accounts
          then err exchange_rate_unavailable
          else ok tt)
  both-status its accounts =
      let first = each_item-status g m b g_laws its accounts in
      elim (Bool-cases (any_fails b its accounts)) [
        | inl bad ↦ rw bad (
            then-err (each_item g its) (each_item h its) accounts exchange_rate_unavailable
              (rw bad at first))
        | inr good ↦
            let returned : (each_item g its accounts).0 ≡ ok tt = rw good at first in
            rw
              (
                good,
                then-ok (each_item g its) (each_item h its) accounts returned,
                each_item-status h n c h_laws its (final (each_item g its accounts)),
              )
              (rw (any_fails-after its accounts returned) refl)
      ]

  -- The step that does both books what the two lists of bookings do, one after the other.
  pub each_item-both :
      (its : List (ℕ × Sign)) (accounts : Accounts)
      → SameBooking (each_item f its accounts) ((each_item g its >> each_item h its) accounts)
  each_item-both its accounts = (
    rw
        (
          each_item-status f (λ d a. m d a +ℤ n d a) (λ o. b o || c o) f_laws its accounts,
          both-status its accounts,
          any_fails-sum b c its accounts,
        )
        refl,
    λ e j. pointwise e j,
  )
    where
      pointwise :
          ((each_item g its >> each_item h its) accounts).0 ≡ ok tt
          → (j : ℕ)
          → final (each_item f its accounts) j
            ≡ final ((each_item g its >> each_item h its) accounts) j
      pointwise e j =
          let first = then-first (each_item g its) (each_item h its) accounts tt e in
          let whole = then-ok (each_item g its) (each_item h its) accounts first in
          let returned : (each_item f its accounts).0 ≡ ok tt =
            rw
              (
                each_item-status f (λ d a. m d a +ℤ n d a) (λ o. b o || c o) f_laws its accounts,
                any_fails-sum b c its accounts,
              )
              (rw (both-status its accounts) at e) in
          rw
            (
              whole,
              each_item-lookup f (λ d a. m d a +ℤ n d a) (λ o. b o || c o) f_laws its accounts j
                  returned,
              each_item-lookup h n c h_laws its (final (each_item g its accounts)) j
                  (rw whole at e),
              each_item-lookup g m b g_laws its accounts j first,
            )
            (shifted-sum (total m its j) (total n its j) (total (λ d a. m d a +ℤ n d a) its j)
              (accounts j) (total-moved h n c h_laws its j) (total-sum m n its j))
