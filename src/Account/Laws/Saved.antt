-- ===== src/Account/Laws/Saved.antt =====
-- The upsert of a list of accounts (`save_financial_accounts` of server/app/services/user_service.py).
use finvo.Prelude.{
  ℕ, ◌≡◌, refl, Bool, false, ◌||◌, Option, none, some, List, [], ◌∷◌, arith, ◌==◌, Option-cases,
  inl, inr,
}
use finvo.Prelude.Lists.{count}
use finvo.Prelude.Exec.{Keeps, Keeps-bind, final, modify, or_raise, pure}
use finvo.Ledger.Expected.{refers}
use finvo.Account.Model.{AccountError, Account, AccountData, Store, of_user, set_account}
use finvo.Account.Lifecycle.{
  new_account, apply_financial_account_fields, assign_columns, assign_status, existing, get_or,
  insert_account, next_status, save_accounts, save_financial_accounts, new_account, save_one,
  status_of, with_balances, with_cash_flow,
}

-- the item is the new row `k`, or names it
abbrev pub concerns : ℕ → ℕ × AccountData → Bool
concerns k item = item.0 == k || refers k item.1.id

-- The account `k`, the transactions and the rules are those of `s`.
record IsUntouched (k : ℕ) (s s' : Store) : Type 0 where
  account : s'.accounts k ≡ s.accounts k
  transactions : s'.transactions ≡ s.transactions
  rules : s'.rules ≡ s.rules

module _ (k : ℕ) (s : Store) where
  set_account-Keeps :
      (j : ℕ) (a : Option Account)
      → (j == k) ≡ false
      → Keeps {E = AccountError} (IsUntouched k s) (modify (set_account j a))
  set_account-Keeps j a apart s' h = record {
    account = rw apart h.account;
    transactions = h.transactions;
    rules = h.rules;
  }

  or_raise-Keeps :
      {A : Type 0} (o : Option A) (e : AccountError) → Keeps (IsUntouched k s) (or_raise o e)
  or_raise-Keeps none e s' h = h
  or_raise-Keeps (some a) e s' h = h

  assign_status-Keeps :
      (j : ℕ) (q : AccountData) (a : Account)
      → (j == k) ≡ false
      → Keeps (IsUntouched k s) (assign_status j q a)
  assign_status-Keeps j q a apart s' h = elim (Option-cases (next_status q.status a.status)) [
    | inl bad ↦ rw bad h
    | inr (t, next) ↦
        rw next (set_account-Keeps j (some (record (with_balances q a) { status = t })) apart s' h)
  ]

  apply-Keeps :
      (j : ℕ) (q : AccountData) (a : Account)
      → (j == k) ≡ false
      → Keeps (IsUntouched k s) (apply_financial_account_fields j q a)
  apply-Keeps j q a apart s' h =
      let assigned : Account = with_cash_flow q (assign_columns q a) in
      assign_status-Keeps j q assigned apart (set_account j (some assigned) s')
        (set_account-Keeps j (some assigned) apart s' h)

  insert-Keeps :
      (new_id u : ℕ) (q : AccountData) (b : Bool)
      → (new_id == k) ≡ false
      → Keeps (IsUntouched k s) (insert_account new_id u q b)
  unfolding new_account
  insert-Keeps new_id u q b apart s' h = elim (Option-cases q.name) [
    | inl missing ↦ rw missing h
    | inr (name, named) ↦ rw named (elim (Option-cases (status_of q.status)) [
      | inl bad ↦ rw bad h
      | inr (t, valid) ↦
          rw valid (set_account-Keeps new_id (some (new_account u q name t b)) apart s' h)
    ])
  ]

  save_one-Keeps :
      (new_id u : ℕ) (q : AccountData) (before : ℕ → Option Account)
      → concerns k (new_id, q) ≡ false
      → Keeps (IsUntouched k s) (save_one new_id u q (existing u q.id before))
  save_one-Keeps new_id u q before apart = go (existing u q.id before) (named q.id (ground arith))
    where
      named : (o : Option ℕ) → refers k o ≡ false → refers k (existing u o before) ≡ false
      named none h = refl
      named (some j) h = elim (Option-cases (of_user u (before j))) [
        | inl missing ↦ ground arith
        | inr (a, found) ↦ ground (arith, h)
      ]

      go : (o : Option ℕ) → refers k o ≡ false → Keeps (IsUntouched k s) (save_one new_id u q o)
      go (some j) h s' p = elim (Option-cases (s'.accounts j)) [
        | inl missing ↦ rw missing p
        | inr (a, found) ↦ rw found (apply-Keeps j q a h s' p)
      ]
      go none h s' p =
          Keeps-bind (IsUntouched k s)
            (insert_account new_id u q (get_or q.include_in_cash_flow false)) (λ a. pure tt)
            (insert-Keeps new_id u q (get_or q.include_in_cash_flow false) (ground arith))
            (λ a s'' r. r) s' p

  save-Keeps :
      (u : ℕ) (before : ℕ → Option Account) (items : List (ℕ × AccountData))
      → count (concerns k) items ≡ 0
      → Keeps (IsUntouched k s) (save_accounts u before items)
  unfolding save_accounts count
  save-Keeps u before [] h = λ s' p. p
  save-Keeps u before ((new_id, q) ∷ rest) h =
      Keeps-bind (IsUntouched k s) (save_one new_id u q (existing u q.id before)) _
        (save_one-Keeps new_id u q before (ground arith))
        (λ x. save-Keeps u before rest (ground arith))

-- A save, whether it returns or raises, leaves the account `k` as it was if no item of the payload
-- names it or is given its identifier, and changes no transaction and no rule.
save_financial_accounts-others :
    (u k : ℕ) (items : List (ℕ × AccountData)) (s : Store)
    → count (concerns k) items ≡ 0
    → let s' = final (save_financial_accounts u items s) in
      (s'.accounts k ≡ s.accounts k) × (s'.transactions ≡ s.transactions) × (s'.rules ≡ s.rules)
unfolding save_financial_accounts
save_financial_accounts-others u k items s h =
    let p =
      save-Keeps k s u s.accounts items h s
        record { account = refl; transactions = refl; rules = refl } in
    (p.account, p.transactions, p.rules)
