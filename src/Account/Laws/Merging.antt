-- ===== src/Account/Laws/Merging.antt =====
-- What a merge does to the balances (`merge_financial_accounts` of
-- server/app/services/user_service.py).
use finvo.Prelude.{
  ℕ, ◌≡◌, refl, sym, ap, ◌∙◌, Bool, true, false, not, ◌&&◌, ◌||◌, Option, none, some, List, [], ◌∷◌,
  map, arith, ◌==◌, Bool-cases, inl, inr, if◌then◌else◌,
}
use finvo.Prelude.Int.{ℤ, pos, ◌+ℤ◌, int_laws}
use finvo.Prelude.Lists.{count, update_where}
use finvo.Prelude.Text.{Text, or_text, upper}
use finvo.Ledger.Model.{
  FinancialAccount, Rates, Transaction, TxType, expense, income, transfer, other_type,
}
use finvo.Ledger.Convert.{convert_snapshot_to_currency}
use finvo.Ledger.Expected.{default_currency, is_cleared, ledger_effect_for_account, refers}
use finvo.Records.Store.{Entry}
use finvo.Account.Model.{redirect, redirect_entry, redirect_tx, linked_tx}
use finvo.Account.Laws.Sums.{all_good, effect, good, good_of, share, share_of, shares}
use finvo.Account.Laws.Shares.{effect_by, fits, good-or, refers-apart, refers-redirect, share-or}

-- An expense names no target and an income no source.
abbrev pub is_plain : TxType → Option ℕ → Option ℕ → Bool
is_plain expense source none = true
is_plain expense source (some k) = false
is_plain income none target = true
is_plain income (some k) target = false
is_plain transfer source target = true
is_plain (other_type _) source target = true

-- The entry is plain, and its owner is `u` if it refers to the account `i`.
abbrev pub is_regular : ℕ → ℕ → Entry → Bool
is_regular u i e =
    is_plain e.tx.tx_type e.tx.source_account_id e.tx.target_account_id
    && (e.tx.user_uuid == u || not (linked_tx i e))

plain-fits :
    (t : TxType) (source target : Option ℕ) (k : ℕ)
    → is_plain t source target ≡ true
    → fits t (refers k source) (refers k target) ≡ true
plain-fits expense source none k h = refl
plain-fits expense source (some j) k h = ground arith
plain-fits income none target k h = refl
plain-fits income (some j) target k h = ground arith
plain-fits transfer source target k h = refl
plain-fits (other_type _) source target k h = refl

abbrev currency_of : FinancialAccount → Text
currency_of a = upper (or_text (some a.currency_code) default_currency)

module _ (clear : Bool) {f f' d d' : Bool} {v v' : Option ℤ} (p : f ≡ f') (q : d ≡ d')
    (r : v ≡ v') where
  share_cong : share clear f d v ≡ share clear f' d' v'
  share_cong = rw (p, q, r) refl

  good_cong : good clear f d v ≡ good clear f' d' v'
  good_cong = rw (p, q, r) refl

abbrev pub rows : List Entry → List Transaction
rows = map (λ e. e.tx)

-- the entries when a merge of the user `u` has pointed `i` at `j`
abbrev pub after_merge : ℕ → ℕ → ℕ → List Entry → List Entry
after_merge u i j = update_where (λ e. e.tx.user_uuid == u) (redirect_entry i (some j))

module _ (rates : Rates) (base : Text) (i j : ℕ) (a b : FinancialAccount) (apart : (i == j) ≡ false)
    (same : currency_of a ≡ currency_of b) where
  abbrev converted : Transaction → Option ℤ
  converted t =
      convert_snapshot_to_currency rates t.amount_original t.amount (some t.currency)
        (currency_of b) base t.exchange_rate true

  effect-by :
      (t : Transaction)
      → effect rates base j b t
        ≡ effect_by t.tx_type
            (refers j t.source_account_id)
            (refers j t.target_account_id)
            (converted t)
  unfolding ledger_effect_for_account
  effect-by t = refl

  effect-by_source :
      (t : Transaction)
      → effect rates base i a t
        ≡ effect_by t.tx_type
            (refers i t.source_account_id)
            (refers i t.target_account_id)
            (converted t)
  unfolding ledger_effect_for_account
  effect-by_source t = rw same refl

  effect-redirect :
      (t : Transaction)
      → effect rates base j b (redirect_tx i (some j) t)
        ≡ effect_by t.tx_type
            (refers i t.source_account_id || refers j t.source_account_id)
            (refers i t.target_account_id || refers j t.target_account_id)
            (converted t)
  effect-redirect t =
      effect-by (redirect_tx i (some j) t)
      ∙ (ap
            (λ x.
              effect_by t.tx_type x (refers j (redirect i (some j) t.target_account_id))
                (converted t))
            (refers-redirect i j t.source_account_id)
          ∙ ap
              (λ x.
                effect_by t.tx_type (refers i t.source_account_id || refers j t.source_account_id) x
                  (converted t))
              (refers-redirect i j t.target_account_id))

  module _ (t : Transaction)
      (plain : is_plain t.tx_type t.source_account_id t.target_account_id ≡ true)
      (g : good_of (effect rates base i a) i t ≡ true)
      (h : good_of (effect rates base j b) j t ≡ true) where
    good_source :
        good (is_cleared t.status) (refers i t.source_account_id) (refers i t.target_account_id) (
          effect_by t.tx_type
            (refers i t.source_account_id)
            (refers i t.target_account_id)
            (converted t))
        ≡ true
    good_source =
        sym (
          ap
            (good (is_cleared t.status) (refers i t.source_account_id)
              (refers i t.target_account_id))
            (effect-by_source t))
        ∙ g

    redirect-share :
        share_of (effect rates base j b) j (redirect_tx i (some j) t)
        ≡ share_of (effect rates base i a) i t +ℤ share_of (effect rates base j b) j t
    unfolding ledger_effect_for_account
    redirect-share =
        share_cong (is_cleared t.status) (refers-redirect i j t.source_account_id)
          (refers-redirect i j t.target_account_id) (effect-redirect t)
        ∙ (share-or t.tx_type (is_cleared t.status) (refers i t.source_account_id)
              (refers j t.source_account_id) (refers i t.target_account_id)
              (refers j t.target_account_id) (converted t)
              (refers-apart i j t.source_account_id apart)
              (refers-apart i j t.target_account_id apart)
              (plain-fits t.tx_type t.source_account_id t.target_account_id i plain)
              (plain-fits t.tx_type t.source_account_id t.target_account_id j plain) good_source h
            ∙ ap (λ x. x +ℤ share_of (effect rates base j b) j t)
                (sym (
                  ap
                    (share (is_cleared t.status) (refers i t.source_account_id)
                      (refers i t.target_account_id))
                    (effect-by_source t))))

    redirect-good : good_of (effect rates base j b) j (redirect_tx i (some j) t) ≡ true
    unfolding ledger_effect_for_account
    redirect-good =
        good_cong (is_cleared t.status) (refers-redirect i j t.source_account_id)
          (refers-redirect i j t.target_account_id) (effect-redirect t)
        ∙ good-or t.tx_type (is_cleared t.status) (refers i t.source_account_id)
            (refers j t.source_account_id) (refers i t.target_account_id)
            (refers j t.target_account_id) (converted t) good_source h

  -- the entry as a merge of the user `u` leaves it
  abbrev repointed : ℕ → Entry → Entry
  repointed u e = if e.tx.user_uuid == u then redirect_entry i (some j) e else e

  module _ (u : ℕ) (e : Entry) (regular : is_regular u i e ≡ true)
      (g : good_of (effect rates base i a) i e.tx ≡ true)
      (h : good_of (effect rates base j b) j e.tx ≡ true) where
    plain_entry : is_plain e.tx.tx_type e.tx.source_account_id e.tx.target_account_id ≡ true
    plain_entry = ground arith

    unlinked : (e.tx.user_uuid == u) ≡ false → share_of (effect rates base i a) i e.tx ≡ pos 0
    unlinked foreign =
        let s : refers i e.tx.source_account_id ≡ false = ground arith in
        let d : refers i e.tx.target_account_id ≡ false = ground arith in
        nothing (is_cleared e.tx.status) (effect rates base i a e.tx) s d
      where
        nothing :
            (clear : Bool) {x y : Bool} (v : Option ℤ)
            → x ≡ false
            → y ≡ false
            → share clear x y v ≡ pos 0
        nothing true v p q = rw (p, q) (omega int_laws)
        nothing false v p q = omega int_laws

    entry-share :
        share_of (effect rates base j b) j (repointed u e).tx
        ≡ share_of (effect rates base i a) i e.tx +ℤ share_of (effect rates base j b) j e.tx
    entry-share = elim (Bool-cases (e.tx.user_uuid == u)) [
      | inl own ↦ rw own (redirect-share e.tx plain_entry g h)
      | inr foreign ↦ rw (foreign, unlinked foreign) (omega int_laws)
    ]

    entry-good : good_of (effect rates base j b) j (repointed u e).tx ≡ true
    entry-good = elim (Bool-cases (e.tx.user_uuid == u)) [
      | inl own ↦ rw own (redirect-good e.tx plain_entry g h)
      | inr foreign ↦ rw foreign h
    ]

  pub merge-shares :
      (u : ℕ) (l : List Entry)
      → count (λ e. not (is_regular u i e)) l ≡ 0
      → all_good (effect rates base i a) i (rows l) ≡ true
      → all_good (effect rates base j b) j (rows l) ≡ true
      → (shares (effect rates base j b) j (rows (after_merge u i j l))
          ≡ shares (effect rates base i a) i (rows l) +ℤ shares (effect rates base j b) j (rows l))
        × (all_good (effect rates base j b) j (rows (after_merge u i j l)) ≡ true)
  unfolding shares all_good count update_where
  merge-shares u [] r g h = (omega int_laws, refl)
  merge-shares u (e ∷ l) r g h =
      let regular : is_regular u i e ≡ true = ground arith in
      let g0 : good_of (effect rates base i a) i e.tx ≡ true = ground arith in
      let h0 : good_of (effect rates base j b) j e.tx ≡ true = ground arith in
      let ih = merge-shares u l (ground arith) (ground arith) (ground arith) in
      let s = entry-share u e regular g0 h0 in
      let k = entry-good u e regular g0 h0 in (rw (s, ih.0) (omega int_laws), rw (k, ih.1) refl)
