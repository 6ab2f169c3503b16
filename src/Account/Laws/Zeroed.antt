-- ===== src/Account/Laws/Zeroed.antt =====
-- The balance after a disposal (`close_financial_account` of server/app/services/user_service.py).
use finvo.Prelude.{
  none, ltb, Option, ◌++◌, ◌&&◌, ℕ, ◌≡◌, refl, ap, Bool, true, false, some, List, [], ◌∷◌, arith,
  ◌==◌, ==_refl, Bool-cases, Option-cases, inl, inr,
}
use finvo.Prelude.Int.{is_zero, ℤ, pos, negsuc, neg, ◌+ℤ◌, int_laws}
use finvo.Prelude.Lists.{select, update_where}
use finvo.Prelude.Text.{text_eq, Text}
use finvo.Prelude.Exec.{
  of_ensures, final, Ensures-seq, after, modify, pure, ◌>>◌, Ensures, ok, err, Outcome,
}
use finvo.Ledger.Model.{FinancialAccount, Rates, Transaction, moved}
use finvo.Ledger.Expected.{
  add_effects, compute_expected_balance, is_cleared, recompute_account_balance, refers,
}
use finvo.Ledger.Laws.Expected.{add_effects-moved, expected-cleared}
use finvo.Records.Store.{Entry}
use finvo.Records.Creation.{
  CreateError, Desk, Submission, Surroundings, create_transaction, new_transaction,
}
use finvo.Records.Laws.Booked.{IsBooked, create_transaction-IsBooked}
use finvo.Account.Model.{
  count_account_references, of_user, is_closed, Lifecycle, closed, Account, Store,
}
use finvo.Account.Closing.{
  transfer_entry, keep, transfer_out, writeoff, unknown, dispose, writeoff_entry, writeoff_entry,
  dispose, disposed, dispose_unless_zero, transfer_balance, close_financial_account, Disposal, back,
  book_disposal, create_on, desk_of, recompute, row_of, set_system,
}
use finvo.Account.Lifecycle.{currency_of}
use finvo.Account.Laws.Merging.{rows}
use finvo.Account.Laws.Closed.{transfer-IsDisposal, writeoff-IsDisposal, IsDisposal}

-- A recomputed balance does not depend on the balance that was there.
expected-moved :
    (rates : Rates) (k : ℕ) (a : FinancialAccount) (base : Text) (txs : List Transaction)
    (e x y : ℤ)
    → compute_expected_balance rates txs base k (moved a e) ≡ (y, true)
    → compute_expected_balance rates txs base k (moved a x) ≡ (y, true)
unfolding compute_expected_balance
expected-moved rates k a base txs e x y h =
    let l =
      select (λ t. is_cleared t.status && refers k t.source_account_id) txs
      ++ select (λ t. is_cleared t.status && refers k t.target_account_id) txs in
    let p = add_effects-moved rates k a base e a.initial_balance l in
    let q = add_effects-moved rates k a base x a.initial_balance l in
    elim (Option-cases (add_effects rates k a base a.initial_balance l)) [
      | inl unknown_rate ↦ absurd (ground arith)
      | inr (z, sum) ↦ ground arith
    ]

rows-set_system :
    (p : Entry → Bool) (l : List Entry)
    → rows (update_where p (λ e. record e { is_system = true }) l) ≡ rows l
unfolding update_where
rows-set_system p [] = refl
rows-set_system p (e ∷ l) = elim (Bool-cases (p e)) [
  | inl h ↦ rw (h, rows-set_system p l) refl
  | inr h ↦ rw (h, rows-set_system p l) refl
]

minus_self : (x : ℤ) → x +ℤ neg x ≡ pos 0
minus_self x = omega int_laws

-- The account `k` is there with the balance zero.
pub record IsEmpty (k : ℕ) (s : Store) : Type 0 where
  pub account : Account
  pub stored : s.accounts k ≡ some account
  pub zero_balance : account.row.current_balance ≡ pos 0

-- The account `k` is there, closed, with the balance zero.
pub record IsClosed (k : ℕ) (s : Store) : Type 0 where
  pub account : Account
  pub stored : s.accounts k ≡ some account
  pub zero_balance : account.row.current_balance ≡ pos 0
  pub shut : account.status ≡ closed

abbrev pub is_keep : Disposal → Bool
is_keep keep = true
is_keep transfer_out = false
is_keep writeoff = false
is_keep unknown = false

module _ (site : Surroundings) (u k : ℕ) (s : Store) (a : Account) (here : s.accounts k ≡ some a)
    (agrees : compute_expected_balance site.rates
        (rows s.transactions)
        (site.user_base a.row.user_uuid)
        k
        a.row
      ≡ (a.row.current_balance, true)) where
  abbrev base : Text
  base = site.user_base a.row.user_uuid

  recompute-zero :
      (q : Submission) (c : ℤ × ℤ) (x : ℤ)
      → IsDisposal site u k a q
      → (recompute_account_balance site.rates
          (new_transaction site q c ∷ rows s.transactions)
          base
          k
          (moved a.row x)).current_balance
        ≡ pos 0
  unfolding recompute_account_balance
  recompute-zero q c x d =
      let e = neg a.row.current_balance in
      let once = d.refers_once in
      let h =
        expected-cleared site.rates k a.row base (new_transaction site q c) (rows s.transactions) e
          a.row.current_balance refl (ground arith) (ground arith) (d.counts c) agrees in
      rw
        (expected-moved site.rates k a.row base (new_transaction site q c ∷ rows s.transactions) e x
          (a.row.current_balance +ℤ e) h)
        (minus_self a.row.current_balance)

  book_disposal-IsEmpty :
      (q : Submission)
      → IsDisposal site u k a q
      → Ensures (λ _. IsEmpty k) (book_disposal site k q s)
  unfolding create_on
  book_disposal-IsEmpty q d =
      go (create_transaction site q (desk_of s))
        (create_transaction-IsBooked site q (desk_of s) d.keyless)
    where
      go :
          (x : Outcome CreateError (Bool × ℕ) × Desk)
          → Ensures (IsBooked site q (desk_of s)) x
          → Ensures
              (λ _. IsEmpty k)
              (after
                (back x s).0
                (λ id. modify (set_system id) >> (recompute site k >> pure id))
                (back x s).1)
      go (err e, s') b = tt
      go (ok (replay, uuid), s') b =
          let here' : row_of (s.accounts k) ≡ some a.row = ap row_of here in
          rw (b.entry, b.rows k, here)
            record {
              account = record a {
                row =
                    recompute_account_balance site.rates
                      (rows (
                        update_where (λ e. e.tx.uuid == uuid) (λ e. record e { is_system = true })
                          (record { tx = new_transaction site q b.converted; is_system = false }
                            ∷ s.transactions)))
                      base k (moved a.row (b.shift k a.row));
              };
              stored = rw (==_refl k) refl;
              zero_balance =
                  rw
                    (rows-set_system (λ e. e.tx.uuid == uuid)
                      (record { tx = new_transaction site q b.converted; is_system = false }
                        ∷ s.transactions))
                    (recompute-zero q b.converted (b.shift k a.row) d);
            }

  transfer_balance-IsEmpty :
      (target : Option ℕ) → Ensures (λ _. IsEmpty k) (transfer_balance site u k target a s)
  unfolding transfer_balance
  transfer_balance-IsEmpty none = tt
  transfer_balance-IsEmpty (some j) = elim (Bool-cases (j == k)) [
    | inl self ↦ rw self tt
    | inr other ↦ rw other (elim (Option-cases (of_user u (s.accounts j))) [
      | inl missing ↦ rw missing tt
      | inr (t, found) ↦ rw found (elim (Bool-cases (is_closed t.status)) [
        | inl shut ↦ rw shut tt
        | inr usable ↦ rw usable (elim (Bool-cases (text_eq (currency_of t) (currency_of a))) [
          | inr apart ↦ rw apart tt
          | inl same ↦ rw same (
              book_disposal-IsEmpty (transfer_entry u k j a)
                (transfer-IsDisposal site u k a j other))
        ])
      ])
    ])
  ]

  disposed-IsEmpty :
      (d : Disposal) (m : Lifecycle ℕ)
      → Ensures (λ _. IsEmpty k) (m s)
      → Ensures (λ _. IsEmpty k) (disposed d m s)
  disposed-IsEmpty d m h = Ensures-seq (λ _. IsEmpty k) (λ _. IsEmpty k) m _ s h (λ x s' p. p)

  dispose-IsEmpty :
      (d : Disposal) (target : Option ℕ)
      → is_keep d ≡ false
      → Ensures (λ _. IsEmpty k) (dispose_unless_zero site u k d target a s)
  dispose-IsEmpty d target h = elim (Bool-cases (is_zero a.row.current_balance)) [
    | inl z ↦
        rw z record { account = a; stored = here; zero_balance = zero_of a.row.current_balance z }
    | inr nz ↦ rw nz (by_disposal d h)
  ]
    where
      zero_of : (x : ℤ) → is_zero x ≡ true → x ≡ pos 0
      zero_of (pos n) z = let e : n ≡ 0 = ground arith in ap pos e
      zero_of (negsuc n) z = ground arith

      by_disposal :
          (d : Disposal)
          → is_keep d ≡ false
          → Ensures (λ _. IsEmpty k) (dispose site u k d target a s)
      by_disposal keep h = ground arith
      by_disposal transfer_out h =
          disposed-IsEmpty transfer_out (transfer_balance site u k target a)
            (transfer_balance-IsEmpty target)
      by_disposal writeoff h =
          disposed-IsEmpty writeoff (book_disposal site k (writeoff_entry u k a))
            (book_disposal-IsEmpty (writeoff_entry u k a) (writeoff-IsDisposal site u k a))
      by_disposal unknown h = tt

  close-IsClosed :
      (d : Disposal) (target : Option ℕ)
      → is_keep d ≡ false
      → Ensures (λ _. IsClosed k) (close_financial_account site u k d target s)
  unfolding close_financial_account
  close-IsClosed d target h = rw here (elim (Bool-cases (a.row.user_uuid == u)) [
    | inr foreign ↦ rw foreign tt
    | inl own ↦ rw own (elim (Bool-cases (is_closed a.status)) [
      | inl shut ↦ rw shut tt
      | inr usable ↦ rw usable (elim (Bool-cases (ltb 0 (count_account_references s k).1)) [
        | inl used ↦ rw used tt
        | inr free ↦ rw free (
            Ensures-seq (λ _. IsEmpty k) (λ _. IsClosed k) (dispose_unless_zero site u k d target a)
              _ s (dispose-IsEmpty d target h)
              (λ r s' p. rw p.stored record {
                account = record p.account { status = closed };
                stored = rw (==_refl k) refl;
                zero_balance = p.zero_balance;
                shut = refl;
              }))
      ])
    ])
  ])

-- If the balance of an account agrees with its transactions, and the account is closed with any
-- disposal but `keep`, then a call that returns leaves it CLOSED with the balance zero.
pub close_financial_account-zero :
    (site : Surroundings) (u k : ℕ) (d : Disposal) (target : Option ℕ) (s : Store) (a : Account)
    (r : Disposal × Option ℕ)
    → s.accounts k ≡ some a
    → compute_expected_balance site.rates
        (rows s.transactions)
        (site.user_base a.row.user_uuid)
        k
        a.row
      ≡ (a.row.current_balance, true)
    → is_keep d ≡ false
    → (close_financial_account site u k d target s).0 ≡ ok r
    → IsClosed k (final (close_financial_account site u k d target s))
close_financial_account-zero site u k d target s a r here agrees h e =
    of_ensures (λ _. IsClosed k) (close_financial_account site u k d target s) r
      (close-IsClosed site u k s a here agrees d target h) e
