-- ===== src/Account/Laws/Merged.antt =====
-- A merge that returns: `merge_financial_accounts` of server/app/services/user_service.py.
use finvo.Prelude.{
  List, ℕ, ◌≡◌, refl, true, false, not, none, some, arith, ◌==◌, ==_refl, Bool-cases, inl, inr,
}
use finvo.Prelude.Int.{ℤ, ◌+ℤ◌, int_laws}
use finvo.Prelude.Lists.{count}
use finvo.Prelude.Text.{Text, text_eq, text_eq_sound}
use finvo.Prelude.Exec.{Ensures, final, ok, of_ensures}
use finvo.Ledger.Model.{FinancialAccount, Rates, Transaction}
use finvo.Ledger.Expected.{compute_expected_balance, recompute_account_balance}
use finvo.Account.Model.{Account, Store, same_nature, is_closed}
use finvo.Account.Lifecycle.{merge_financial_accounts, currency_of}
use finvo.Account.Laws.Sums.{all_good, effect, expected-shares, shares}
use finvo.Account.Laws.Merging.{is_regular, merge-shares, rows, after_merge}

-- A balance that agrees with the transactions is their sum.
pub agreed :
    (rates : Rates) (base : Text) (k : ℕ) (a : FinancialAccount) (txs : List Transaction)
    → compute_expected_balance rates txs base k a ≡ (a.current_balance, true)
    → (all_good (effect rates base k a) k txs ≡ true)
      × (a.initial_balance +ℤ shares (effect rates base k a) k txs ≡ a.current_balance)
agreed rates base k a txs h =
    let e = expected-shares rates base k a txs in
    elim (Bool-cases (all_good (effect rates base k a) k txs)) [
      | inl g ↦ (g, ground arith)
      | inr g ↦ absurd (ground arith)
    ]

merged_balance : (x i y j d e : ℤ) → i +ℤ d ≡ x → j +ℤ e ≡ y → (j +ℤ (d +ℤ e)) +ℤ i ≡ x +ℤ y
merged_balance x i y j d e h k = rw (← h, ← k) (omega int_laws)

module _ (rates : Rates) (base : Text) (u i j : ℕ) (s : Store) (a b : Account)
    (at_i : s.accounts i ≡ some a) (at_j : s.accounts j ≡ some b)
    (regular : count (λ e. not (is_regular u i e)) s.transactions ≡ 0)
    (agreed_i : compute_expected_balance rates (rows s.transactions) base i a.row
      ≡ (a.row.current_balance, true))
    (agreed_j : compute_expected_balance rates (rows s.transactions) base j b.row
      ≡ (b.row.current_balance, true)) where
  recomputed-sum :
      (i == j) ≡ false
      → currency_of a ≡ currency_of b
      → (recompute_account_balance rates
            (rows (after_merge u i j s.transactions))
            base
            j
            b.row).current_balance
          +ℤ a.row.initial_balance
        ≡ a.row.current_balance +ℤ b.row.current_balance
  unfolding recompute_account_balance
  recomputed-sum apart same =
      let p = agreed rates base i a.row (rows s.transactions) agreed_i in
      let q = agreed rates base j b.row (rows s.transactions) agreed_j in
      let m = merge-shares rates base i j a.row b.row apart same u s.transactions regular p.0 q.0 in
      let e = expected-shares rates base j b.row (rows (after_merge u i j s.transactions)) in
      rw (e, m.1, m.0)
        (merged_balance _ _ _ _ (shares (effect rates base i a.row) i (rows s.transactions))
          (shares (effect rates base j b.row) j (rows s.transactions)) p.1 q.1)

  -- the sum that is left when the source is gone
  abbrev Merged : Store → Type 0
  Merged s' =
      (c : Account) × (s'.accounts j ≡ some c)
      × (s'.accounts i ≡ none)
      × (c.row.current_balance +ℤ a.row.initial_balance
          ≡ a.row.current_balance +ℤ b.row.current_balance)

  merge-Ensures : Ensures (λ _. Merged) (merge_financial_accounts rates base u i j s)
  unfolding merge_financial_accounts
  merge-Ensures = elim (Bool-cases (i == j)) [
    | inl self ↦ rw self tt
    | inr apart ↦
        rw (apart, at_i, at_j)
          (elim (Bool-cases (a.row.user_uuid == u)) [
            | inr foreign ↦ rw foreign tt
            | inl own ↦ elim (Bool-cases (b.row.user_uuid == u)) [
              | inr foreign ↦ rw (own, foreign) tt
              | inl own' ↦
                  rw (own, own')
                    (elim (Bool-cases (text_eq (currency_of a) (currency_of b))) [
                      | inr other ↦ rw other tt
                      | inl same ↦ rw same (elim (Bool-cases (same_nature a.nature b.nature)) [
                        | inr other ↦ rw other tt
                        | inl kind ↦ rw kind (elim (Bool-cases (is_closed b.status)) [
                          | inl shut ↦ rw shut tt
                          | inr open_target ↦
                              rw (open_target, apart, ==_refl i, ==_refl j)
                                (
                                  _,
                                  refl,
                                  refl,
                                  recomputed-sum apart
                                      (text_eq_sound (currency_of a) (currency_of b) same),
                                )
                        ])
                      ])
                    ])
            ]
          ])
  ]

-- Of two accounts whose balances agree with their transactions, a merge that returns leaves the
-- target alone, with less than the sum of the two balances: the initial balance of the source is lost.
-- The transactions that refer to the source are the user's, no expense has a target and no income a
-- source.
pub merge_financial_accounts-initial_lost :
    (rates : Rates) (base : Text) (u i j : ℕ) (s : Store) (a b : Account)
    → s.accounts i ≡ some a
    → s.accounts j ≡ some b
    → count (λ e. not (is_regular u i e)) s.transactions ≡ 0
    → compute_expected_balance rates (rows s.transactions) base i a.row
      ≡ (a.row.current_balance, true)
    → compute_expected_balance rates (rows s.transactions) base j b.row
      ≡ (b.row.current_balance, true)
    → (merge_financial_accounts rates base u i j s).0 ≡ ok tt
    → let s' = final (merge_financial_accounts rates base u i j s) in
      (c : Account) × (s'.accounts j ≡ some c)
      × (s'.accounts i ≡ none)
      × (c.row.current_balance +ℤ a.row.initial_balance
          ≡ a.row.current_balance +ℤ b.row.current_balance)
merge_financial_accounts-initial_lost rates base u i j s a b at_i at_j regular agreed_i agreed_j h =
    of_ensures (λ _. Merged rates base u i j s a b at_i at_j regular agreed_i agreed_j)
      (merge_financial_accounts rates base u i j s) tt
      (merge-Ensures rates base u i j s a b at_i at_j regular agreed_i agreed_j) h
