-- ===== src/Account/Laws/Closed.antt =====
-- Closing with a disposal: `close_financial_account` of server/app/services/user_service.py.
use finvo.Prelude.{
  ℕ, ◌≡◌, refl, ap, ◌∙◌, Bool, true, false, not, Option, none, some, [], ◌∷◌, arith, ◌==◌, ==_refl,
  Bool-cases, inl, inr,
}
use finvo.Prelude.Int.{ℤ, pos, negsuc, abs, neg, int_laws, ltb_ℤ}
use finvo.Prelude.Text.{Text, or_text, text_eq_refl, upper, upper-upper}
use finvo.Ledger.Model.{Rates, TxType, expense, income, transfer}
use finvo.Ledger.Convert.{convert_snapshot_to_currency}
use finvo.Ledger.Expected.{default_currency, effect_of_type, ledger_effect_for_account, refers}
use finvo.Records.Creation.{Submission, Surroundings, new_transaction}
use finvo.Account.Model.{Account}
use finvo.Account.Lifecycle.{currency_of}
use finvo.Account.Closing.{submission, transfer_entry, writeoff_entry}
use finvo.Account.Laws.Shares.{effect_by, effect_by_cong}

-- The account's currency is not empty, as the default stands in for the empty one.
or_currency :
    (t d : Text)
    → or_text (some (upper (upper (or_text (some t) default_currency)))) d
      ≡ upper (upper (or_text (some t) default_currency))
unfolding upper or_text
or_currency [] d = refl
or_currency (c ∷ t) d = refl

-- An entry in the account's own currency counts its amount.
own_currency :
    (rates : Rates) (amount base : ℤ) (t user_base : Text) (rate : Option ℤ)
    → convert_snapshot_to_currency rates amount base
        (some (upper (upper (or_text (some t) default_currency))))
        (upper (or_text (some t) default_currency))
        user_base
        rate
        true
      ≡ some (abs amount)
unfolding convert_snapshot_to_currency
own_currency rates amount base t user_base rate =
    rw
      (
        or_currency t (upper user_base),
        upper-upper (or_text (some t) default_currency),
        upper-upper (or_text (some t) default_currency),
        text_eq_refl (upper (or_text (some t) default_currency)),
      )
      refl

out_of : (a : ℤ) → ltb_ℤ (pos 0) a ≡ true → neg (abs (abs (abs a))) ≡ neg a
unfolding abs
out_of (pos n) h = omega int_laws
out_of (negsuc n) h = ground arith

into : (a : ℤ) → ltb_ℤ (pos 0) a ≡ false → abs (abs (abs a)) ≡ neg a
unfolding abs
into (pos n) h = let z : n ≡ 0 = ground arith in omega int_laws
into (negsuc n) h = omega int_laws

module _ (site : Surroundings) (u k : ℕ) (a : Account) where
  abbrev base : Text
  base = site.user_base a.row.user_uuid

  converts :
      (t : TxType) (source target : Option ℕ) (c : ℤ × ℤ)
      → let tx = new_transaction site (submission u t a source target) c in
        convert_snapshot_to_currency site.rates tx.amount_original tx.amount
          (some tx.currency)
          (currency_of a)
          base
          tx.exchange_rate
          true
        ≡ some (abs (abs (abs a.row.current_balance)))
  converts t source target c =
      own_currency site.rates (abs (abs a.row.current_balance)) (site.quantize c.0)
        a.row.currency_code base (some (site.quantize c.1))

  -- an entry that takes the balance of the account `k` away
  pub record IsDisposal (q : Submission) : Type 0 where
    pub keyless : q.idempotency_key ≡ none
    pub counts :
        (c : ℤ × ℤ)
        → ledger_effect_for_account site.rates (new_transaction site q c) k a.row base true
          ≡ some (neg a.row.current_balance)
    pub refers_once : refers k q.source_account_id ≡ not (refers k q.target_account_id)

  effect-by :
      (t : TxType) (source target : Option ℕ) (c : ℤ × ℤ) {f d : Bool}
      → refers k source ≡ f
      → refers k target ≡ d
      → ledger_effect_for_account site.rates
          (new_transaction site (submission u t a source target) c)
          k
          a.row
          base
          true
        ≡ effect_by t f d (some (abs (abs (abs a.row.current_balance))))
  unfolding ledger_effect_for_account
  effect-by t source target c p q = effect_by_cong t p q (converts t source target c)

  source-IsDisposal :
      (t : TxType) (target : Option ℕ)
      → ((x : ℤ) → effect_of_type t true false x ≡ neg x)
      → refers k target ≡ false
      → ltb_ℤ (pos 0) a.row.current_balance ≡ true
      → IsDisposal (submission u t a (some k) target)
  source-IsDisposal t target debits elsewhere positive = record {
    keyless = refl;
    counts = λ c.
        effect-by t (some k) target c (==_refl k) elsewhere
        ∙ ap some (debits _ ∙ out_of a.row.current_balance positive);
    refers_once = rw (==_refl k, elsewhere) refl;
  }

  target-IsDisposal :
      (t : TxType) (source : Option ℕ)
      → ((x : ℤ) → effect_of_type t false true x ≡ x)
      → refers k source ≡ false
      → ltb_ℤ (pos 0) a.row.current_balance ≡ false
      → IsDisposal (submission u t a source (some k))
  target-IsDisposal t source credits elsewhere negative = record {
    keyless = refl;
    counts = λ c.
        effect-by t source (some k) c elsewhere (==_refl k)
        ∙ ap some (credits _ ∙ into a.row.current_balance negative);
    refers_once = rw (==_refl k, elsewhere) refl;
  }

  pub writeoff-IsDisposal : IsDisposal (writeoff_entry u k a)
  writeoff-IsDisposal = elim (Bool-cases (ltb_ℤ (pos 0) a.row.current_balance)) [
    | inl positive ↦ rw positive (source-IsDisposal expense none (λ x. refl) refl positive)
    | inr negative ↦ rw negative (target-IsDisposal income none (λ x. refl) refl negative)
  ]

  pub transfer-IsDisposal : (j : ℕ) → (j == k) ≡ false → IsDisposal (transfer_entry u k j a)
  transfer-IsDisposal j other = elim (Bool-cases (ltb_ℤ (pos 0) a.row.current_balance)) [
    | inl positive ↦
        rw positive (source-IsDisposal transfer (some j) (λ x. omega int_laws) other positive)
    | inr negative ↦
        rw negative (target-IsDisposal transfer (some j) (λ x. omega int_laws) other negative)
  ]
