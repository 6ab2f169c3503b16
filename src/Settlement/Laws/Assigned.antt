-- ===== src/Settlement/Laws/Assigned.antt =====
-- The payments against the debts and the credits.
use finvo.Prelude.Lists.{length, count}
use finvo.Prelude.Text.{Text}
use finvo.Settlement.Balances.{Tally}
use finvo.Prelude.{
  ◌-◌, ℕ, ◌+◌, ◌*◌, ◌≤◌, ◌≡◌, refl, [], ◌∷◌, arith, ◌==◌, if◌then◌else◌, Bool-cases, inl, inr,
}
use finvo.Settlement.Payments.{
  settle, debtors, creditors, settle_all, min, settle_debtor, less, Shares, entry,
}
use finvo.Settlement.Laws.Paid.{
  paid_by, paid_to, share_of, cents_by, cents_to, payments_by, payments_to, cents_by-count,
  cents_to-count, paid_to-append, paid_by-append, cents_to-append, cents_by-append, paid_to-entry,
  paid_by-entry,
}

-- the rows of a user
abbrev pub rows_of : ℕ → Shares → ℕ
rows_of u shares = count (λ e. e.0 == u) shares

-- `w` for each row of the user
unfoldable slips : ℕ → ℕ → Shares → ℕ
slips u w [] = 0
slips u w ((k, x) ∷ rest) = (if k == u then w else 0) + slips u w rest

slips-count : (u w : ℕ) (shares : Shares) → slips u w shares ≡ rows_of u shares * w
unfolding slips count
slips-count u w [] = omega arith
slips-count u w ((k, x) ∷ rest) = elim (Bool-cases (k == u)) [
  | inl same ↦ rw (same, slips-count u w rest) (grind arith)
  | inr other ↦ rw (other, slips-count u w rest) (grind arith)
]

-- no share is above the limit
unfoldable pub AllUnder : ℕ → Shares → Type 0
AllUnder limit [] = Unit
AllUnder limit ((k, x) ∷ rest) = (x ≤ limit) × AllUnder limit rest

-- `fit` rounds up by `ulp` at most, and not above the limit, which it represents.
abbrev pub RoundsWithin : (ℕ → ℕ) → ℕ → ℕ → Type 0
RoundsWithin fit ulp limit = (n : ℕ) → n ≤ limit → (fit n ≤ limit) × (fit n ≤ n + ulp)

module _ (fit : ℕ → ℕ) (ulp limit : ℕ) (rounds : RoundsWithin fit ulp limit) where
  less-close :
      (a b : ℕ)
      → a ≤ limit
      → (less fit a (min a b) ≤ limit) × (less fit a (min a b) + min a b ≤ a + ulp)
  less-close a b h = let near = rounds (a - min a b) (ground arith) in ground arith

  less-close' :
      (a b : ℕ)
      → b ≤ limit
      → (less fit b (min a b) ≤ limit) × (less fit b (min a b) + min a b ≤ b + ulp)
  less-close' a b h = let near = rounds (b - min a b) (ground arith) in ground arith

  -- the credits that remain stay under the limit, and are as many
  left-AllUnder :
      (cent d r : ℕ) (credits : Shares)
      → AllUnder limit credits
      → AllUnder limit (settle_debtor fit cent d r credits).1
  unfolding settle_debtor AllUnder
  left-AllUnder cent d r [] h = tt
  left-AllUnder cent d r ((c, credit) ∷ rest) h =
      ((less-close' r credit h.0).0, left-AllUnder cent d (less fit r (min r credit)) rest h.1)

  left-length :
      (cent d r : ℕ) (credits : Shares)
      → length (settle_debtor fit cent d r credits).1 ≡ length credits
  unfolding settle_debtor
  left-length cent d r [] = refl
  left-length cent d r ((c, credit) ∷ rest) =
      rw (left-length cent d (less fit r (min r credit)) rest) refl

  left-slips :
      (u w cent d r : ℕ) (credits : Shares)
      → slips u w (settle_debtor fit cent d r credits).1 ≡ slips u w credits
  unfolding settle_debtor slips
  left-slips u w cent d r [] = refl
  left-slips u w cent d r ((c, credit) ∷ rest) =
      rw (left-slips u w cent d (less fit r (min r credit)) rest) refl

  -- one debtor takes from a creditor what the creditor's remaining credit loses
  debtor-paid_to :
      (u cent d r : ℕ) (credits : Shares)
      → AllUnder limit credits
      → 2 * paid_to u (settle_debtor fit cent d r credits).0
          + 2 * share_of u (settle_debtor fit cent d r credits).1
        ≤ 2 * share_of u credits
          + (cents_to u cent (settle_debtor fit cent d r credits).0 + 2 * slips u ulp credits)
  unfolding settle_debtor share_of paid_to cents_to slips AllUnder
  debtor-paid_to u cent d r [] h = omega arith
  debtor-paid_to u cent d r ((c, credit) ∷ rest) h =
      let x = min r credit in
      let items = (settle_debtor fit cent d (less fit r x) rest).0 in
      let ih = debtor-paid_to u cent d (less fit r x) rest h.1 in
      let first = paid_to-entry u cent d c x in
      let near = (less-close' r credit h.0).1 in
      let joined = paid_to-append u (entry cent d c x) items in
      let joined' = cents_to-append u cent (entry cent d c x) items in
      elim (Bool-cases (c == u)) [
        | inl same ↦
            let first' = rw same at first in
            rw same (omega (arith, ih, first', near, joined, joined'))
        | inr other ↦
            let first' = rw other at first in rw other (omega (arith, ih, first', joined, joined'))
      ]

  debtor-paid_by :
      (u cent d r : ℕ) (credits : Shares)
      → r ≤ limit
      → 2 * paid_by u (settle_debtor fit cent d r credits).0
        ≤ (if d == u then 2 * r + 2 * (length credits * ulp) else 0)
          + cents_by u cent (settle_debtor fit cent d r credits).0
  unfolding settle_debtor paid_by cents_by
  debtor-paid_by u cent d r [] h = ground arith
  debtor-paid_by u cent d r ((c, credit) ∷ rest) h =
      let x = min r credit in
      let items = (settle_debtor fit cent d (less fit r x) rest).0 in
      let close = less-close r credit h in
      let ih = debtor-paid_by u cent d (less fit r x) rest close.0 in
      let first = paid_by-entry u cent d c x in
      let joined = paid_by-append u (entry cent d c x) items in
      let joined' = cents_by-append u cent (entry cent d c x) items in
      elim (Bool-cases (d == u)) [
        | inl same ↦
            let first' = rw same at first in
            let ih' = rw same at ih in
            let near = close.1 in rw same (grind (arith, ih', first', near, joined, joined'))
        | inr other ↦
            let first' = rw other at first in
            let ih' = rw other at ih in rw other (omega (arith, ih', first', joined, joined'))
      ]

  -- What a user is paid by all debtors together, with the credit that remains, is at most the credit,
  -- but for the rounding.
  settle_all-paid_to :
      (u cent : ℕ) (debts credits : Shares)
      → AllUnder limit credits
      → 2 * paid_to u (settle_all fit cent debts credits).0
          + 2 * share_of u (settle_all fit cent debts credits).1
        ≤ 2 * share_of u credits
          + (cents_to u cent (settle_all fit cent debts credits).0
              + 2 * (length debts * slips u ulp credits))
  unfolding settle_all paid_to cents_to
  settle_all-paid_to u cent [] credits h = omega arith
  settle_all-paid_to u cent ((d, debt) ∷ rest) credits h =
      let one = settle_debtor fit cent d debt credits in
      let first = debtor-paid_to u cent d debt credits h in
      let ih = settle_all-paid_to u cent rest one.1 (left-AllUnder cent d debt credits h) in
      let ih' = rw (left-slips u ulp cent d debt credits) at ih in
      let joined = paid_to-append u one.0 (settle_all fit cent rest one.1).0 in
      let joined' = cents_to-append u cent one.0 (settle_all fit cent rest one.1).0 in
      grind (arith, first, ih', joined, joined')

  -- No debtor pays more than the debt, but for the rounding.
  settle_all-paid_by :
      (u cent : ℕ) (debts credits : Shares)
      → AllUnder limit debts
      → 2 * paid_by u (settle_all fit cent debts credits).0
        ≤ 2 * share_of u debts
          + (cents_by u cent (settle_all fit cent debts credits).0
              + 2 * slips u (length credits * ulp) debts)
  unfolding settle_all paid_by cents_by share_of slips AllUnder
  settle_all-paid_by u cent [] credits h = omega arith
  settle_all-paid_by u cent ((d, debt) ∷ rest) credits h =
      let one = settle_debtor fit cent d debt credits in
      let first = debtor-paid_by u cent d debt credits h.0 in
      let ih = settle_all-paid_by u cent rest one.1 h.1 in
      let ih' = rw (left-length cent d debt credits) at ih in
      let joined = paid_by-append u one.0 (settle_all fit cent rest one.1).0 in
      let joined' = cents_by-append u cent one.0 (settle_all fit cent rest one.1).0 in
      elim (Bool-cases (d == u)) [
        | inl same ↦
            let first' = rw same at first in rw same (omega (arith, first', ih', joined, joined'))
        | inr other ↦
            let first' = rw other at first in rw other (omega (arith, first', ih', joined, joined'))
      ]

  -- In the payments of a settlement no user is paid more than the balance in the user's favour, and
  -- no user pays more than the balance against the user, up to half a cent for each of the payments,
  -- to which their amounts are rounded, and what the subtractions round, at most `ulp` for each pair
  -- of a balance of the user and one of the other side. No balance is above the limit, up to which a
  -- difference is rounded up by at most `ulp`, and not past the limit.
  pub settle-within_balances :
      (u cent : ℕ) (base : Text) (t : Tally)
      → AllUnder limit (creditors t.balances)
      → AllUnder limit (debtors t.balances)
      → (2 * paid_to u (settle fit cent base t).items
          ≤ 2 * share_of u (creditors t.balances)
            + (cent * payments_to u (settle fit cent base t).items
                + 2 * (length (debtors t.balances) * (rows_of u (creditors t.balances) * ulp))))
        × (2 * paid_by u (settle fit cent base t).items
            ≤ 2 * share_of u (debtors t.balances)
              + (cent * payments_by u (settle fit cent base t).items
                  + 2 * (rows_of u (debtors t.balances) * (length (creditors t.balances) * ulp))))
  settle-within_balances u cent base t hc hd =
      let ds = debtors t.balances in
      let cs = creditors t.balances in
      let items = (settle_all fit cent ds cs).0 in
      let to = settle_all-paid_to u cent ds cs hc in
      let by = settle_all-paid_by u cent ds cs hd in
      (
        omega (arith, rw (cents_to-count u cent items, slips-count u ulp cs) at to),
        rw (cents_by-count u cent items, slips-count u (length cs * ulp) ds) at by,
      )
