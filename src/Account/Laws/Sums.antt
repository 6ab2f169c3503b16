-- ===== src/Account/Laws/Sums.antt =====
-- The recomputed balance of an account as a sum over the whole table of transactions.
use finvo.Prelude.{
  ℕ, ◌≡◌, refl, Bool, true, false, not, ◌&&◌, ◌||◌, Option, none, some, List, [], ◌∷◌, ◌++◌, arith,
  Bool-cases, Option-cases, inl, inr, if◌then◌else◌,
}
use finvo.Prelude.Int.{ℤ, pos, ◌+ℤ◌, int_laws}
use finvo.Prelude.Lists.{select}
use finvo.Prelude.Text.{Text}
use finvo.Ledger.Model.{FinancialAccount, Rates, Transaction}
use finvo.Ledger.Expected.{
  add_effects, compute_expected_balance, is_cleared, ledger_effect_for_account, refers, when,
}

abbrev pub value : Option ℤ → ℤ
value none = pos 0
value (some x) = x

abbrev pub is_some : Option ℤ → Bool
is_some none = false
is_some (some x) = true

module _ (f : Transaction → Option ℤ) where
  pub total : List Transaction → ℤ
  total [] = pos 0
  total (t ∷ rest) = value (f t) +ℤ total rest

  pub all_known : List Transaction → Bool
  all_known [] = true
  all_known (t ∷ rest) = is_some (f t) && all_known rest

  total-append : (l r : List Transaction) → total (l ++ r) ≡ total l +ℤ total r
  unfolding total
  total-append [] r = omega int_laws
  total-append (t ∷ l) r = rw (total-append l r) (omega int_laws)

  all_known-append : (l r : List Transaction) → all_known (l ++ r) ≡ (all_known l && all_known r)
  unfolding all_known
  all_known-append [] r = refl
  all_known-append (t ∷ l) r = let ih = all_known-append l r in ground arith

-- what a transaction counts in the recomputation: once as source, once as target
abbrev pub share : Bool → Bool → Bool → Option ℤ → ℤ
share clear from to v = when (clear && from) (value v) +ℤ when (clear && to) (value v)

abbrev pub good : Bool → Bool → Bool → Option ℤ → Bool
good clear from to v = not (clear && (from || to)) || is_some v

module _ (f : Transaction → Option ℤ) (k : ℕ) where
  abbrev pub share_of : Transaction → ℤ
  share_of t =
      share (is_cleared t.status) (refers k t.source_account_id) (refers k t.target_account_id)
        (f t)

  abbrev pub good_of : Transaction → Bool
  good_of t =
      good (is_cleared t.status) (refers k t.source_account_id) (refers k t.target_account_id) (f t)

  abbrev pub sources : List Transaction → List Transaction
  sources = select (λ t. is_cleared t.status && refers k t.source_account_id)

  abbrev pub targets : List Transaction → List Transaction
  targets = select (λ t. is_cleared t.status && refers k t.target_account_id)

  unfoldable pub shares : List Transaction → ℤ
  shares [] = pos 0
  shares (t ∷ rest) = share_of t +ℤ shares rest

  unfoldable pub all_good : List Transaction → Bool
  all_good [] = true
  all_good (t ∷ rest) = good_of t && all_good rest

  total-when :
      (b : Bool) (t : Transaction) (l : List Transaction)
      → total f (if b then t ∷ l else l) ≡ when b (value (f t)) +ℤ total f l
  unfolding total
  total-when true t l = refl
  total-when false t l = omega int_laws

  total-shares : (l : List Transaction) → total f (sources l) +ℤ total f (targets l) ≡ shares l
  unfolding total shares select
  total-shares [] = omega int_laws
  total-shares (t ∷ rest) =
      let ih = total-shares rest in
      let s = total-when (is_cleared t.status && refers k t.source_account_id) t (sources rest) in
      let d = total-when (is_cleared t.status && refers k t.target_account_id) t (targets rest) in
      rw (s, d, ← ih) (omega int_laws)

  all_known-good :
      (l : List Transaction) → (all_known f (sources l) && all_known f (targets l)) ≡ all_good l
  unfolding all_known all_good select
  all_known-good [] = refl
  all_known-good (t ∷ rest) = let ih = all_known-good rest in ground arith

  pub total-all : (l : List Transaction) → total f (sources l ++ targets l) ≡ shares l
  total-all l = rw (total-append f (sources l) (targets l)) (total-shares l)

  pub all_known-all : (l : List Transaction) → all_known f (sources l ++ targets l) ≡ all_good l
  all_known-all l = rw (all_known-append f (sources l) (targets l)) (all_known-good l)

module _ (rates : Rates) (user_base : Text) (k : ℕ) (a : FinancialAccount) where
  abbrev pub effect : Transaction → Option ℤ
  effect t = ledger_effect_for_account rates t k a user_base true

  add_effects-total :
      (x : ℤ) (l : List Transaction)
      → add_effects rates k a user_base x l
        ≡ (if all_known effect l then some (x +ℤ total effect l) else none)
  unfolding add_effects total all_known
  add_effects-total x [] = let e : x ≡ x +ℤ pos 0 = omega int_laws in rw (← e) refl
  add_effects-total x (t ∷ rest) = elim (Option-cases (effect t)) [
    | inl unknown ↦ ground arith
    | inr (d, known) ↦
        let e : (x +ℤ d) +ℤ total effect rest ≡ x +ℤ (d +ℤ total effect rest) = omega int_laws in
        let ih = add_effects-total (x +ℤ d) rest in ground arith
  ]

  -- The recomputed balance is the initial one and the shares of all transactions, if each that counts
  -- has a known effect.
  pub expected-shares :
      (txs : List Transaction)
      → compute_expected_balance rates txs user_base k a ≡ (
          if all_good effect k txs
          then (a.initial_balance +ℤ shares effect k txs, true)
          else (a.current_balance, false))
  unfolding compute_expected_balance
  expected-shares txs =
      let known = all_known-all effect k txs in
      let sum = total-all effect k txs in
      let loop =
        add_effects-total a.initial_balance (sources effect k txs ++ targets effect k txs) in
      elim (Bool-cases (all_good effect k txs)) [ inl h ↦ ground arith | inr h ↦ ground arith ]
