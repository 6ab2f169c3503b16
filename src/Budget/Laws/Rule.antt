-- ===== src/Budget/Laws/Rule.antt =====
-- The walk through the period service that its invariants share: what is kept by each write is kept
-- by `get_or_create_current_period`.
use finvo.Prelude.{
  ℕ, zero, suc, ◌+◌, ◌≡◌, refl, false, arith, leb, Bool-cases, inl, inr, Option, none, some, List,
  [], ◌∷◌, Bool, true,
}
use finvo.Prelude.Int.{ℤ, is_zero, pos, ltb_ℤ, ◌+ℤ◌}
use finvo.Prelude.Lists.{select}
use finvo.Prelude.Exec.{pure, or_raise, ◌>>◌, final, Holds, Holds-bind, gets, ◌>>=◌}
use finvo.Budget.Calendar.{civil}
use finvo.Budget.Range.{calculate_period_range}
use finvo.Budget.Store.{
  Budget, BudgetPeriod, World, Session, integrity_error, Operation, has_key, try_except,
  write_period, write_budget, scalar_one_or_none,
}
use finvo.Budget.Periods.{
  current_period, is_current, insert_period, keyed_like, added, carry, book_rollover, or_else,
  try_insert, fresh_period, found_or, fill_period, fill_gap, create_initial, resume,
  get_or_create_current_period, clear, surplus,
}
use finvo.Budget.Laws.Latest.{All, AllOption, previous-All, All-select}
use finvo.Budget.Laws.Insert.{try_insert_rule}
use finvo.Budget.Spending.{refreshed, update_period_spent_amount}

-- the period of the budget that has the day `n`
abbrev pub range_of : Budget → ℕ → ℕ × ℕ
range_of b n = calculate_period_range b.period_type b.period_anchor_day (civil n)

-- The writes of the service keep `I`, where the periods have `Q` and `C` holds of the dates from
-- which the service goes on.
pub record IsKept (w : World) (b : Budget) (C : ℕ → Type 0) (I : Session → Type 0)
    (Q : BudgetPeriod → Type 0) : Type 0 where
  pub next : (n : ℕ) → C n → C ((range_of b n).1 + 1)
  pub rows : (s : Session) → I s → All Q s.periods
  pub fresh :
      (n : ℕ) (amount : ℤ)
      → C n
      → ltb_ℤ amount (pos 0) ≡ false
      → Q (fresh_period b (range_of b n) amount)
  pub rival :
      (k start : ℕ) (r : BudgetPeriod)
      → w.rival k start ≡ some r
      → Q (record r { budget_id = k; period_start = start })
  pub refresh : (p : BudgetPeriod) → Q p → Q (refreshed w b p)
  pub booked : (p : BudgetPeriod) (amount : ℤ) → Q p → Q (record p { rollover_out = amount })
  pub inserted :
      (p : BudgetPeriod) (s : Session)
      → I s
      → Q p
      → clear (select (has_key p.budget_id p.period_start) s.periods) ≡ true
      → I (added p s)
  pub written : (p : BudgetPeriod) (s : Session) → I s → Q p → I (final (write_period p s))
  pub balanced :
      (amount : ℤ) (s : Session)
      → I s
      → I (
          final (
            write_budget b.id
              (λ x. record x { rollover_balance = x.rollover_balance +ℤ amount })
              s))

surplus_bound : (p : BudgetPeriod) → ltb_ℤ (surplus p) (pos 0) ≡ false
unfolding surplus
surplus_bound p = ground arith

module _ (w : World) (b : Budget) (C : ℕ → Type 0) (I : Session → Type 0)
    (Q : BudgetPeriod → Type 0) (rules : IsKept w b C I Q) where
  -- what `carry` returns
  abbrev GoodCarry : BudgetPeriod × ℤ → Type 0
  GoodCarry c = Q c.0 × (ltb_ℤ c.1 (pos 0) ≡ false)

  Kept-carry :
      (prev : BudgetPeriod) (s : Session) → I s → Q prev → Holds I GoodCarry (carry w b prev s)
  unfolding carry update_period_spent_amount
  Kept-carry prev s t g = elim (Bool-cases b.rollover_enabled) [
    | inl on ↦ rw on (
        Holds-bind I Q GoodCarry (write_period (refreshed w b prev)) (λ p. pure (p, surplus p)) s
          (rules.written (refreshed w b prev) s t (rules.refresh prev g), rules.refresh prev g)
          (λ p s' t' g'. (t', (g', surplus_bound p))))
    | inr off ↦ rw off (t, (g, refl))
  ]

  Kept-query :
      (q : BudgetPeriod → Bool) (k : Option BudgetPeriod → Operation BudgetPeriod) (s : Session)
      → I s
      → Holds I Q (k none s)
      → ((p : BudgetPeriod) → Q p → Holds I Q (k (some p) s))
      → Holds I Q ((gets (λ s. select q s.periods) >>= λ rows. scalar_one_or_none rows >>= k) s)
  Kept-query q k s t not_found found =
      go (select q s.periods) (All-select Q q s.periods (rules.rows s t))
    where
      go : (rows : List BudgetPeriod) → All Q rows → Holds I Q ((scalar_one_or_none rows >>= k) s)
      go [] e = not_found
      go (p ∷ []) e = found p e.0
      go (p ∷ r ∷ rest) e = t

  Kept-book_rollover :
      (prev new : BudgetPeriod) (amount : ℤ) (s : Session)
      → I s
      → Q prev
      → Q new
      → Holds I Q ((book_rollover b prev amount >> pure new) s)
  unfolding book_rollover
  Kept-book_rollover prev new amount s t g g' = elim (Bool-cases (is_zero amount)) [
    | inl e ↦ rw e (t, g')
    | inr e ↦
        let moved = record prev { rollover_out = amount } in
        let kept = rules.written moved s t (rules.booked prev amount g) in
        rw e (rules.balanced amount _ kept, g')
  ]

  Kept-try :
      (p : BudgetPeriod) (k : Unit {0} → Operation BudgetPeriod) (h : Operation BudgetPeriod)
      (s : Session)
      → I s
      → Q p
      → ((s' : Session) → I s' → Holds I Q (k tt s'))
      → ((s' : Session) → I s' → Holds I Q (h s'))
      → Holds I Q (try_except (insert_period w p) k h s)
  Kept-try p k h s t g won lost =
      try_insert_rule (Holds I Q) w p k h s (λ c. won (added p s) (rules.inserted p s t g c))
        (λ r c e.
          lost (added (keyed_like p r) s)
            (rules.inserted (keyed_like p r) s t (rules.rival p.budget_id p.period_start r e) c))
        (lost s t)

  Kept-try_insert :
      (prev new : BudgetPeriod) (amount : ℤ) (s : Session)
      → I s
      → Q prev
      → Q new
      → Holds I Q (try_insert w b prev amount new s)
  unfolding try_insert
  Kept-try_insert prev new amount s t g g' =
      Kept-try new _ _ s t g' (λ s' t'. Kept-book_rollover prev new amount s' t' g g')
        (λ s' t'.
          Kept-query (has_key b.id new.period_start) (λ found. pure (or_else found prev)) s' t'
            (t', g) (λ p h. (t', h)))

  Kept-fill_period :
      (n : ℕ) (prev : BudgetPeriod) (s : Session)
      → C n
      → I s
      → Q prev
      → Holds I Q (fill_period w b (range_of b n) prev s)
  unfolding fill_period
  Kept-fill_period n prev s h t g =
      Kept-query (has_key b.id (range_of b n).0) _ s t
        (Holds-bind I GoodCarry Q (carry w b prev) _ s (Kept-carry prev s t g)
          (λ c s' t' g'. Kept-try_insert c.0 _ c.1 s' t' g'.0 (rules.fresh n c.1 h g'.1)))
        (λ p g'. (t, g'))

  Kept-fill_gap :
      (fuel reference : ℕ) (prev : BudgetPeriod) (s : Session)
      → C reference
      → I s
      → Q prev
      → Holds I Q (fill_gap w b fuel reference prev s)
  unfolding fill_gap
  Kept-fill_gap zero reference prev s h t g =
      elim (Bool-cases (leb reference (w.today b.owner_uuid))) [
        | inl more ↦ rw more t
        | inr done ↦ rw done (t, g)
      ]
  Kept-fill_gap (suc fuel) reference prev s h t g =
      elim (Bool-cases (leb reference (w.today b.owner_uuid))) [
        | inl more ↦ rw more (
            Holds-bind I Q Q (fill_period w b (range_of b reference) prev) _ s
              (Kept-fill_period reference prev s h t g)
              (λ p s' t' g'. Kept-fill_gap fuel _ p s' (rules.next reference h) t' g'))
        | inr done ↦ rw done (t, g)
      ]

  Kept-create_initial :
      (s : Session) → C (w.today b.owner_uuid) → I s → Holds I Q (create_initial w b s)
  unfolding create_initial current_period
  Kept-create_initial s h t =
      let fresh = rules.fresh (w.today b.owner_uuid) (pos 0) h refl in
      Kept-try (fresh_period b (range_of b (w.today b.owner_uuid)) (pos 0)) _ _ s t fresh
        (λ s' t'. (t', fresh))
        (λ s' t'.
          Kept-query (is_current w b) (λ found. or_raise found integrity_error) s' t' t'
            (λ p g. (t', g)))

  -- the day after the period
  abbrev Resumes : BudgetPeriod → Type 0
  Resumes p = C (p.period_end + 1)

  Kept-resume :
      (prev : Option BudgetPeriod) (s : Session)
      → C (w.today b.owner_uuid)
      → AllOption Resumes prev
      → AllOption Q prev
      → I s
      → Holds I Q (resume w b prev s)
  unfolding resume current_period
  Kept-resume none s h after g t = Kept-create_initial s h t
  Kept-resume (some prev) s h after g t =
      Holds-bind I Q Q (fill_gap w b _ _ prev) _ s
        (Kept-fill_gap _ (prev.period_end + 1) prev s after t g)
        (λ p s' t' g'.
          Kept-query (is_current w b) (λ final. found_or final (create_initial w b)) s' t'
            (Kept-create_initial s' h t') (λ q g''. (t', g'')))

  pub Kept-get_or_create :
      (s : Session)
      → C (w.today b.owner_uuid)
      → All (λ p. C (p.period_end + 1)) s.periods
      → I s
      → Holds I Q (get_or_create_current_period w b s)
  unfolding get_or_create_current_period current_period
  Kept-get_or_create s h after t =
      Kept-query (is_current w b) _ s t
        (Kept-resume _ s h (previous-All Resumes b.id (w.today b.owner_uuid) s.periods after)
          (previous-All Q b.id (w.today b.owner_uuid) s.periods (rules.rows s t)) t)
        (λ p g. (t, g))
