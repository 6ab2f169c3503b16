-- ===== src/Account/Laws/Rows.antt =====
-- Deletions, updates and saves of accounts (server/app/services/user_service.py).
use finvo.Prelude.{
  ℕ, ◌≡◌, refl, ap, ◌∙◌, Bool, true, false, ◌||◌, Option, none, some, List, [], ◌∷◌, map, arith,
  ltb, ◌==◌, Bool-cases, Option-cases, inl, inr,
}
use finvo.Prelude.Int.{ℤ, pos, negsuc, is_zero}
use finvo.Prelude.Lists.{count}
use finvo.Prelude.Exec.{Ensures, final, ok, of_ensures}
use finvo.Ledger.Expected.{refers}
use finvo.Records.Store.{Entry}
use finvo.Recurring.Store.{Rule}
use finvo.Account.Model.{
  Account, Store, count_account_references, delete_account, linked_rule, linked_tx, redirect,
  redirect_entry, redirect_rule, set_account,
}
use finvo.Account.Lifecycle.{delete_financial_account}

redirect-none : (k : ℕ) (o : Option ℕ) → refers k o ≡ false → redirect k none o ≡ o
redirect-none k none h = refl
redirect-none k (some j) h = rw h refl

-- Setting the references to an account to NULL changes nothing where there is none.
unlinked_entry : (k : ℕ) (e : Entry) → linked_tx k e ≡ false → redirect_entry k none e ≡ e
unlinked_entry k e h =
    let p = redirect-none k e.tx.source_account_id (ground arith) in
    let q = redirect-none k e.tx.target_account_id (ground arith) in
    ap
      (λ o. record e {
        tx = record e.tx {
          source_account_id = o;
          target_account_id = redirect k none e.tx.target_account_id;
        };
      })
      p
    ∙ ap (λ o. record e { tx = record e.tx { target_account_id = o } }) q

unlinked_rule : (k : ℕ) (r : Rule) → linked_rule k r ≡ false → redirect_rule k none r ≡ r
unlinked_rule k r h =
    let p = redirect-none k r.source_account_id (ground arith) in
    let q = redirect-none k r.target_account_id (ground arith) in
    ap
      (λ o. record r {
        source_account_id = o;
        target_account_id = redirect k none r.target_account_id;
      })
      p
    ∙ ap (λ o. record r { target_account_id = o }) q

map_unchanged :
    {A : Type 0} (p : A → Bool) (f : A → A)
    → ((x : A) → p x ≡ false → f x ≡ x)
    → (l : List A) → count p l ≡ 0
    → map f l ≡ l
unfolding count
map_unchanged p f same [] h = refl
map_unchanged p f same (x ∷ l) h =
    let e : f x ≡ x = same x (ground arith) in rw (e, map_unchanged p f same l (ground arith)) refl

delete-unlinked :
    (k : ℕ) (s : Store)
    → count (linked_tx k) s.transactions ≡ 0
    → count (linked_rule k) s.rules ≡ 0
    → delete_account k s ≡ set_account k none s
delete-unlinked k s h i =
    ap
      (λ l. record (set_account k none s) {
        transactions = l;
        rules = map (redirect_rule k none) s.rules;
      })
      (map_unchanged (linked_tx k) (redirect_entry k none) (unlinked_entry k) s.transactions h)
    ∙ ap (λ l. record (set_account k none s) { rules = l })
        (map_unchanged (linked_rule k) (redirect_rule k none) (unlinked_rule k) s.rules i)

-- What a deletion that answers yes has found and done.
abbrev Deleted : ℕ → ℕ → Store → Bool → Store → Type 0
Deleted u k s answer s' =
    answer ≡ true
    → (a : Account) × (s.accounts k ≡ some a)
      × ((a.row.user_uuid == u) ≡ true)
      × (a.row.current_balance ≡ pos 0)
      × (s' ≡ set_account k none s)

zero_of : (x : ℤ) → is_zero x ≡ true → x ≡ pos 0
zero_of (pos n) z = let e : n ≡ 0 = ground arith in ap pos e
zero_of (negsuc n) z = ground arith

delete-Ensures : (u k : ℕ) (s : Store) → Ensures (Deleted u k s) (delete_financial_account u k s)
unfolding delete_financial_account count_account_references
delete-Ensures u k s = elim (Option-cases (s.accounts k)) [
  | inl missing ↦ rw missing (λ answer. ground arith)
  | inr (a, here) ↦ rw here (elim (Bool-cases (a.row.user_uuid == u)) [
    | inr foreign ↦ rw foreign (λ answer. ground arith)
    | inl own ↦
        rw own
          (elim (Bool-cases
            (ltb 0 (count (linked_tx k) s.transactions) || ltb 0 (count (linked_rule k) s.rules))) [
              | inl used ↦ rw used tt
              | inr free ↦ rw free (elim (Bool-cases (is_zero a.row.current_balance)) [
                | inr rest ↦ rw rest tt
                | inl zero_balance ↦ rw zero_balance (λ answer. (
                  a,
                  here,
                  own,
                  zero_of a.row.current_balance zero_balance,
                  delete-unlinked k s (ground arith) (ground arith),
                ))
              ])
            ])
  ])
]

-- A deletion that answers yes was asked by the account's owner, its balance was zero, and the account
-- alone is gone: every transaction and every rule is as before, with its references.
pub delete_financial_account-alone :
    (u k : ℕ) (s : Store)
    → (delete_financial_account u k s).0 ≡ ok true
    → (a : Account) × (s.accounts k ≡ some a)
      × ((a.row.user_uuid == u) ≡ true)
      × (a.row.current_balance ≡ pos 0)
      × (final (delete_financial_account u k s) ≡ set_account k none s)
delete_financial_account-alone u k s h =
    of_ensures (Deleted u k s) (delete_financial_account u k s) true (delete-Ensures u k s) h refl
