-- ===== src/Account/Laws/Edited.antt =====
-- Updates and saves of accounts (server/app/services/user_service.py).
use finvo.Prelude.{
  ℕ, ◌≡◌, refl, ap, ◌∙◌, true, false, ◌⊎◌, Option, none, some, List, ◌==◌, ==_refl, Bool-cases,
  Option-cases, inl, inr,
}
use finvo.Prelude.Int.{ℤ, ◌+ℤ◌, ◌-ℤ◌, int_laws}
use finvo.Prelude.Text.{Text}
use finvo.Prelude.Exec.{Ensures, final, ok, of_ensures}
use finvo.Ledger.Model.{FinancialAccount, Rates, Transaction}
use finvo.Ledger.Expected.{compute_expected_balance, ledger_effect_for_account}
use finvo.Account.Model.{Account, AccountData, AccountStatus, Store, is_closed}
use finvo.Account.Lifecycle.{
  asks_to_close, assign, assign_balances, assign_columns, next_status, update_financial_account,
  update_row, updated,
}
use finvo.Account.Laws.Sums.{effect, expected-shares, shares}
use finvo.Account.Laws.Merged.{agreed}
use finvo.Account.Laws.Merging.{rows}

assign-row :
    {A : Type 0} (o : Option A) (f : A → Account → Account) (a : Account)
    → ((v : A) → (f v a).row ≡ a.row)
    → (assign o f a).row ≡ a.row
assign-row none f a h = refl
assign-row (some v) f a h = h v

assign-none :
    {A : Type 0} (o : Option A) (f : A → Account → Account) (a : Account)
    → o ≡ none
    → assign o f a ≡ a
assign-none none f a e = refl
assign-none (some v) f a e = cc

columns-row :
    (q : AccountData) (a : Account) → q.currency_code ≡ none → (assign_columns q a).row ≡ a.row
columns-row q a e =
    assign-row q.include_in_net_worth _ _ (λ v. refl)
    ∙ (ap (λ (b : Account). b.row) (assign-none q.currency_code _ _ e)
        ∙ (assign-row q.account_type _ _ (λ v. refl)
            ∙ (assign-row q.nature _ _ (λ v. refl) ∙ assign-row q.name _ _ (λ v. refl))))

shifted_by : (i j x y : ℤ) → j +ℤ y ≡ x → i +ℤ y ≡ x +ℤ (i -ℤ j)
shifted_by i j x y h = rw (← h) (omega int_laws)

-- A new initial balance alone moves the balance and what is computed from the transactions alike.
balances-agree :
    (rates : Rates) (base : Text) (k : ℕ) (txs : List Transaction) (i : Option ℤ)
    (r : FinancialAccount)
    → compute_expected_balance rates txs base k r ≡ (r.current_balance, true)
    → compute_expected_balance rates txs base k (assign_balances i none r)
      ≡ ((assign_balances i none r).current_balance, true)
unfolding assign_balances ledger_effect_for_account
balances-agree rates base k txs none r h = h
balances-agree rates base k txs (some i) r h =
    let r' : FinancialAccount = assign_balances (some i) none r in
    let p = agreed rates base k r txs h in
    let e = expected-shares rates base k r' txs in
    rw (e, p.0)
      (ap (λ x. (x, true))
        (shifted_by i r.initial_balance r.current_balance (shares (effect rates base k r) k txs)
          p.1))

module _ (rates : Rates) (base : Text) (u k : ℕ) (q : AccountData) (s : Store) (a : Account)
    (here : s.accounts k ≡ some a) (uncorrected : q.current_balance ≡ none)
    (same : q.currency_code ≡ none)
    (agrees : compute_expected_balance rates (rows s.transactions) base k a.row
      ≡ (a.row.current_balance, true)) where
  updated-row :
      (t : AccountStatus) → (updated q t a).row ≡ assign_balances q.initial_balance none a.row
  updated-row t = rw (uncorrected, columns-row q a same) refl

  -- the account that an update returns is stored, open if the status was asked for, and agrees
  abbrev Updated : Option Account → Store → Type 0
  Updated none s' = Unit {0}
  Updated (some b) s' =
      (s'.accounts k ≡ some b)
      × (compute_expected_balance rates (rows s'.transactions) base k b.row
          ≡ (b.row.current_balance, true))
      × ((b.status ≡ a.status) ⊎ (is_closed b.status ≡ false))

  update_row-Ensures : Ensures Updated (update_row k q a s)
  update_row-Ensures = elim (Option-cases (next_status q.status a.status)) [
    | inl bad ↦ rw bad tt
    | inr (t, next) ↦ rw next (elim (Bool-cases (asks_to_close q.status t)) [
      | inl asks ↦ rw asks tt
      | inr apart ↦ rw apart (
        rw (==_refl k) refl,
        rw (updated-row t)
            (balances-agree rates base k (rows s.transactions) q.initial_balance a.row agrees),
        status_kept q.status t next apart,
      )
    ])
  ]
    where
      status_kept :
          (o : Option Text) (t : AccountStatus)
          → next_status o a.status ≡ some t
          → asks_to_close o t ≡ false
          → (t ≡ a.status) ⊎ (is_closed t ≡ false)
      status_kept none t e h = inl (cc)
      status_kept (some v) t e h = inr h

  update-Ensures : Ensures Updated (update_financial_account u k q s)
  unfolding update_financial_account
  update-Ensures = rw here (elim (Bool-cases (a.row.user_uuid == u)) [
    | inr foreign ↦ rw foreign tt
    | inl own ↦ rw own update_row-Ensures
  ])

-- If an account's balance agrees with its transactions, and an update has neither a current balance
-- nor a currency, then the account that it returns is stored and its balance agrees again, also when
-- the initial balance is a new one. Its status is the one that it had, or is not CLOSED.
pub update_financial_account-agrees :
    (rates : Rates) (base : Text) (u k : ℕ) (q : AccountData) (s : Store) (a b : Account)
    → s.accounts k ≡ some a
    → q.current_balance ≡ none
    → q.currency_code ≡ none
    → compute_expected_balance rates (rows s.transactions) base k a.row
      ≡ (a.row.current_balance, true)
    → (update_financial_account u k q s).0 ≡ ok (some b)
    → let s' = final (update_financial_account u k q s) in
      (s'.accounts k ≡ some b)
      × (compute_expected_balance rates (rows s'.transactions) base k b.row
          ≡ (b.row.current_balance, true))
      × ((b.status ≡ a.status) ⊎ (is_closed b.status ≡ false))
update_financial_account-agrees rates base u k q s a b here uncorrected same agrees h =
    of_ensures (Updated rates base u k q s a here uncorrected same agrees)
      (update_financial_account u k q s) (some b)
      (update-Ensures rates base u k q s a here uncorrected same agrees) h
