-- ===== src/Budget/Laws/Rebalance.antt =====
-- `rebalance_with_status`: the sum of the budgets' amounts.
use finvo.Prelude.{
  ℕ, suc, ◌≤◌, ◌≡◌, refl, Bool, false, not, ◌&&◌, arith, Bool-cases, inl, inr, Option, none, some,
  List, [], ◌∷◌, ◌==◌, ◌∙◌, ==_refl,
}
use finvo.Prelude.Int.{ℤ, pos, ◌+ℤ◌, ◌-ℤ◌, leb_ℤ}
use finvo.Prelude.Lists.{
  select, count, update_where, count_mono, select_sound, count-of_select, count-update_keep,
  count-update_some_le, length-select, length,
}
use finvo.Prelude.Exec.{Outcome, err, pure, ◌>>=◌, ◌>>◌, final, Holds, Holds-bind, Holds-final}
use finvo.Budget.Store.{
  Budget, BudgetPeriod, World, Session, BudgetError, Operation, scalar_one_or_none, has_id,
}
use finvo.Budget.Periods.{get_or_create_current_period}
use finvo.Budget.Spending.{update_period_spent_amount}
use finvo.Budget.Service.{
  get_budget, reload, shift_target, move_targets, can_pay, shifted, pay, same_currency,
  unless_unpaid, rebalance_found, both_found, success, rebalance_with_status,
}
use finvo.Budget.Laws.Latest.{All}
use finvo.Budget.Laws.Amounts.{
  total, is_overdrawn, total-update_keep, total-credit, total-debit, debit_over, credit_over,
  add_back,
}
use finvo.Budget.Laws.Rule.{IsKept, Kept-get_or_create}

-- The sum is `t`, and no budget is overdrawn.
record Amounts (t : ℤ) (s : Session) : Type 0 where
  same : total s.budgets ≡ t
  covered : count is_overdrawn s.budgets ≡ 0

module _ (t : ℤ) (w : World) where
  abbrev Always : {A : Type 0} → A → Type 0
  Always _ = Unit

  All-Always : (ps : List BudgetPeriod) → All Always ps
  All-Always [] = tt
  All-Always (p ∷ ps) = (tt, All-Always ps)

  Amounts-IsKept : (b : Budget) → IsKept w b Always (Amounts t) Always
  unfolding is_overdrawn
  Amounts-IsKept b = record {
    next = λ n h. tt;
    rows = λ s h. All-Always s.periods;
    fresh = λ n a h k. tt;
    rival = λ k start r h. tt;
    refresh = λ p h. tt;
    booked = λ p a h. tt;
    inserted = λ p s h g c. record { same = h.same; covered = h.covered };
    written = λ p s h g. record { same = h.same; covered = h.covered };
    balanced = λ a s h. record {
      same = total-update_keep (has_id b.id) _ s.budgets (λ x. refl) ∙ h.same;
      covered = count-update_keep is_overdrawn (has_id b.id) _ s.budgets (λ x. refl) ∙ h.covered;
    };
  }

  Amounts-shift_target :
      (b : Budget) (p : BudgetPeriod) (f : ℤ → ℤ) (s : Session)
      → Amounts t s
      → Holds (Amounts t) Always (shift_target w b p f s)
  unfolding shift_target update_period_spent_amount
  Amounts-shift_target b p f s h = (record { same = h.same; covered = h.covered }, tt)

  Amounts-current :
      (b : Budget) (s : Session)
      → Amounts t s
      → Holds (Amounts t) Always (get_or_create_current_period w b s)
  Amounts-current b s h =
      Kept-get_or_create w b Always (Amounts t) Always (Amounts-IsKept b) s tt
        (All-Always s.periods) h

  Amounts-move_targets :
      (from to : Budget) (a : ℤ) (s : Session)
      → Amounts t s
      → Holds (Amounts t) Always (move_targets w from to a s)
  unfolding move_targets
  Amounts-move_targets from to a s h =
      Holds-bind (Amounts t) Always Always (get_or_create_current_period w (reload from s)) _ s
        (Amounts-current (reload from s) s h)
        (λ p s1 h1 _.
          Holds-bind (Amounts t) Always Always (get_or_create_current_period w (reload to s1)) _ s1
            (Amounts-current (reload to s1) s1 h1)
            (λ q s2 h2 _.
              Holds-bind (Amounts t) Always Always (shift_target w (reload from s) p _)
                (λ _. shift_target w (reload to s1) q (λ x. x +ℤ a) >> pure success) s2
                (Amounts-shift_target (reload from s) p _ s2 h2)
                (λ _ s3 h3 _.
                  Holds-bind (Amounts t) Always Always
                    (shift_target w (reload to s1) q (λ x. x +ℤ a)) (λ _. pure success) s3
                    (Amounts-shift_target (reload to s1) q _ s3 h3) (λ _ s4 h4 _. (h4, tt)))))

-- one row for a key
abbrev pub Unique : List Budget → Type 0
Unique bs = (k : ℕ) → count (has_id k) bs ≤ 1

payers :
    (k : ℕ) (a : ℤ) (x : Budget) (rest bs : List Budget)
    → Unique bs
    → select (can_pay k a) bs ≡ x ∷ rest
    → count (can_pay k a) bs ≡ 1
payers k a x rest bs u e =
    let some_row : suc (length rest) ≡ count (can_pay k a) bs =
      rw e at (length-select (can_pay k a) bs) in
    omega (arith, some_row, u k, count_mono (can_pay k a) (has_id k) bs (λ y h. ground arith))

pay-Amounts :
    (k to_id : ℕ) (a : ℤ) (x : Budget) (rest : List Budget) (s : Session)
    → Unique s.budgets
    → count is_overdrawn s.budgets ≡ 0
    → leb_ℤ a (pos 0) ≡ false
    → select (can_pay k a) s.budgets ≡ x ∷ rest
    → 1 ≤ count (has_id to_id) s.budgets
    → Amounts (total s.budgets) (pay k to_id a s)
pay-Amounts k to_id a x rest s u none_over positive e there =
    let one = payers k a x rest s.budgets u e in
    let paid = update_where (can_pay k a) (shifted (λ y. y -ℤ a)) s.budgets in
    let still =
      count-update_keep (has_id to_id) (can_pay k a) (shifted (λ y. y -ℤ a)) s.budgets
        (λ y. refl) in
    let receiver : count (has_id to_id) paid ≡ 1 = omega (arith, still, u to_id, there) in
    let debit = total-debit (can_pay k a) a s.budgets one in
    let credit = total-credit (has_id to_id) a paid receiver in
    let over =
      count-update_some_le is_overdrawn (can_pay k a) (shifted (λ y. y -ℤ a)) s.budgets
        (debit_over k a) in
    let over' =
      count-update_some_le is_overdrawn (has_id to_id) (shifted (λ y. y +ℤ a)) paid
        (credit_over to_id a positive) in
    record {
      same = rw (credit, debit) (add_back (total s.budgets) a);
      covered = omega (arith, over, over', none_over);
    }

-- `get_budget` in front of the rest
get_budget_rule :
    {B : Type 0} (P : Outcome BudgetError B × Session → Type 0) (k user_uuid : ℕ)
    (f : Option Budget → Operation B) (s : Session)
    → P (f none s)
    → ((b : Budget) → 1 ≤ count (has_id b.id) s.budgets → P (f (some b) s))
    → P (err BudgetError.multiple_rows, s)
    → P ((get_budget k user_uuid >>= f) s)
unfolding get_budget
get_budget_rule {B} P k user_uuid f s not_there there many = go (select mine s.budgets) refl
  where
    mine : Budget → Bool
    mine b = b.id == k && b.owner_uuid == user_uuid

    go : (rows : List Budget) → select mine s.budgets ≡ rows → P ((scalar_one_or_none rows >>= f) s)
    go [] e = not_there
    go (b ∷ []) e =
        let own = select_sound mine s.budgets e in
        there b (count-of_select mine (has_id b.id) s.budgets e (==_refl b.id))
    go (b ∷ c ∷ rest) e = many

Amounts-rebalance_found :
    (w : World) (from to : Budget) (a : ℤ) (s : Session)
    → Unique s.budgets
    → count is_overdrawn s.budgets ≡ 0
    → leb_ℤ a (pos 0) ≡ false
    → 1 ≤ count (has_id to.id) s.budgets
    → Holds (Amounts (total s.budgets)) (Always (total s.budgets) w) (rebalance_found w from to a s)
unfolding rebalance_found
Amounts-rebalance_found w from to a s u covered positive there =
    elim (Bool-cases (not (same_currency from to))) [
      | inl differ ↦ rw differ (start, tt)
      | inr agree ↦ rw agree (go (select (can_pay from.id a) s.budgets) refl)
    ]
  where
    start : Amounts (total s.budgets) s
    start = record { same = refl; covered = covered }

    go :
        (rows : List Budget)
        → select (can_pay from.id a) s.budgets ≡ rows
        → Holds
            (Amounts (total s.budgets))
            (Always (total s.budgets) w)
            (unless_unpaid rows (λ s. move_targets w from to a (pay from.id to.id a s)) s)
    go [] e = (start, tt)
    go (x ∷ rest) e =
        Amounts-move_targets (total s.budgets) w from to a (pay from.id to.id a s)
          (pay-Amounts from.id to.id a x rest s u covered positive e there)

-- `rebalance_with_status` keeps the sum of the amounts of all budgets, and overdraws none, whatever
-- status it returns and also where it raises, on a table of budgets in which ids are unique and no
-- budget is overdrawn.
pub rebalance_with_status-total :
    (w : World) (from_id to_id : ℕ) (amount : ℤ) (user_uuid : ℕ) (s : Session)
    → Unique s.budgets
    → count is_overdrawn s.budgets ≡ 0
    → (total (final (rebalance_with_status w from_id to_id amount user_uuid s)).budgets
        ≡ total s.budgets)
      × (count is_overdrawn
            (final (rebalance_with_status w from_id to_id amount user_uuid s)).budgets
          ≡ 0)
unfolding rebalance_with_status
rebalance_with_status-total w from_id to_id amount user_uuid s u covered =
    let kept =
      Holds-final (Amounts (total s.budgets)) (Always (total s.budgets) w)
        (rebalance_with_status w from_id to_id amount user_uuid s)
        (elim (Bool-cases (leb_ℤ amount (pos 0))) [
          | inl none_moved ↦ rw none_moved (start, tt)
          | inr positive ↦ rw positive (moves positive)
        ]) in
    (kept.same, kept.covered)
  where
    start : Amounts (total s.budgets) s
    start = record { same = refl; covered = covered }

    moves :
        leb_ℤ amount (pos 0) ≡ false
        → Holds (Amounts (total s.budgets)) (Always (total s.budgets) w) (
            (get_budget from_id user_uuid >>= λ from.
            get_budget to_id user_uuid >>= λ to. both_found w from to amount)
              s)
    moves positive =
        get_budget_rule (Holds (Amounts (total s.budgets)) (Always (total s.budgets) w)) from_id
          user_uuid _ s
          (get_budget_rule (Holds (Amounts (total s.budgets)) (Always (total s.budgets) w)) to_id
            user_uuid _ s (start, tt) (λ to there. (start, tt)) start)
          (λ from here.
            get_budget_rule (Holds (Amounts (total s.budgets)) (Always (total s.budgets) w)) to_id
              user_uuid _ s (start, tt)
              (λ to there. Amounts-rebalance_found w from to amount s u covered positive there)
              start)
          start
