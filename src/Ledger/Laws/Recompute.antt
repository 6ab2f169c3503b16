-- ===== src/Ledger/Laws/Recompute.antt =====
-- Booking against recomputation: what a booking adds to an account is what the recomputation counts
-- for the transaction.
use finvo.Prelude.Text.{Text, or_text, upper, upper-upper}
use finvo.Prelude.{
  false, Bool, Bool-cases, Option, Option-cases, arith, inl, inr, ltb, none, not, refl, some, true,
  ℕ, ◌&&◌, ◌==◌, ◌∷◌, ◌≡◌,
}
use finvo.Prelude.Int.{+ℤ_zero, int_laws, pos, ℤ}
use finvo.Ledger.Expected.{default_currency, effect_of_type, ledger_effect_for_account, refers}
use finvo.Ledger.Laws.Booking.{total}
use finvo.Ledger.Laws.Items.{amount_of, items}
use finvo.Ledger.Model.{
  FinancialAccount, Rates, Sign, Transaction, TxType, expense, income, minus, other_type, plus,
  signed, transfer,
}
use finvo.Ledger.Convert.{convert_snapshot_to_currency}
use finvo.Ledger.Effects.{account_currency, convert_snapshot_amount, transfer_items}
use finvo.Ledger.Laws.Pointwise.{delta}

-- the same account on both sides
abbrev pub is_same : Option ℕ → Option ℕ → Bool
is_same (some s) (some t) = s == t
is_same _ _ = false

abbrev pub counted : Bool → TxType → Option ℕ → Option ℕ → ℕ → ℤ → ℤ
counted fu t source target k x = effect_of_type t (refers k source) (refers k target) x

total-effect :
    (amount : Sign → FinancialAccount → ℤ) (a : FinancialAccount) (x : ℤ)
    → ((d : Sign) → amount d a ≡ signed d x)
    → (fu : Bool) (t : TxType) (source target : Option ℕ) (k : ℕ)
    → (is_same source target && fu) ≡ false
    → total amount (items fu t source target) k a ≡ counted fu t source target k x
unfolding transfer_items
total-effect amount a x h fu expense none target k d = refl
total-effect amount a x h fu expense (some s) target k d = rw h (omega int_laws)
total-effect amount a x h fu income source none k d = refl
total-effect amount a x h fu income source (some t) k d = rw h (omega int_laws)
total-effect amount a x h fu (other_type _) source target k d = refl
total-effect amount a x h fu transfer none none k d = omega int_laws
total-effect amount a x h fu transfer (some s) none k d = rw h (omega int_laws)
total-effect amount a x h fu transfer none (some t) k d = rw h (omega int_laws)
total-effect amount a x h fu transfer (some s) (some t) k d = elim (Bool-cases (fu && ltb t s)) [
  | inl swapped ↦ rw (d, swapped, h plus, h minus) (omega int_laws)
  | inr kept ↦ rw (d, kept, h plus, h minus) (omega int_laws)
]

-- no item of a transaction is at an account that it does not refer to
total-elsewhere :
    (amount : Sign → FinancialAccount → ℤ) (a : FinancialAccount) (fu : Bool) (t : TxType)
    (source target : Option ℕ) (k : ℕ)
    → (not (refers k source) && not (refers k target)) ≡ true
    → total amount (items fu t source target) k a ≡ pos 0
unfolding transfer_items
total-elsewhere amount a fu expense none target k h = refl
total-elsewhere amount a fu expense (some s) none k h = ground (arith, +ℤ_zero (pos 0))
total-elsewhere amount a fu expense (some s) (some t) k h = ground (arith, +ℤ_zero (pos 0))
total-elsewhere amount a fu income source none k h = refl
total-elsewhere amount a fu income none (some t) k h = ground (arith, +ℤ_zero (pos 0))
total-elsewhere amount a fu income (some s) (some t) k h = ground (arith, +ℤ_zero (pos 0))
total-elsewhere amount a fu (other_type _) source target k h = refl
total-elsewhere amount a fu transfer none none k h = refl
total-elsewhere amount a fu transfer (some s) none k h = ground (arith, +ℤ_zero (pos 0))
total-elsewhere amount a fu transfer none (some t) k h = ground (arith, +ℤ_zero (pos 0))
total-elsewhere amount a fu transfer (some s) (some t) k h = ground (arith, +ℤ_zero (pos 0))

module _ (rates : Rates) (tx : Transaction) (uid : ℕ) (user_base : Text) (live : Bool) (k : ℕ)
    (a : FinancialAccount) (c : ℕ) (cs : Text) (own : (a.user_uuid == uid) ≡ true)
    (code : a.currency_code ≡ c ∷ cs) (no_rate : tx.exchange_rate ≡ none) where
  -- both sides convert to the account's currency
  same_conversion :
      convert_snapshot_amount rates tx.amount_original tx.amount tx.currency
        (account_currency a user_base)
        user_base
        live
      ≡ convert_snapshot_to_currency rates tx.amount_original tx.amount
          (some tx.currency)
          (upper (or_text (some a.currency_code) default_currency))
          user_base
          tx.exchange_rate
          live
  unfolding convert_snapshot_amount convert_snapshot_to_currency or_text
  same_conversion = rw (code, no_rate, upper-upper (c ∷ cs)) refl

  amount-known :
      (x : ℤ)
      → convert_snapshot_to_currency rates tx.amount_original tx.amount
          (some tx.currency)
          (upper (or_text (some a.currency_code) default_currency))
          user_base
          tx.exchange_rate
          live
        ≡ some x
      → (d : Sign) → amount_of rates tx uid user_base live plus d a ≡ signed d x
  unfolding delta
  amount-known x e d = rw (own, same_conversion, e) refl

  -- What a booking adds to the account is the effect that the recomputation counts.
  pub total-ledger_effect :
      (fu : Bool) (e : ℤ)
      → (is_same tx.source_account_id tx.target_account_id && fu) ≡ false
      → ledger_effect_for_account rates tx k a user_base live ≡ some e
      → total
          (amount_of rates tx uid user_base live plus)
          (items fu tx.tx_type tx.source_account_id tx.target_account_id)
          k
          a
        ≡ e
  unfolding ledger_effect_for_account
  total-ledger_effect fu e distinct h =
      elim (Bool-cases
        (not (refers k tx.source_account_id) && not (refers k tx.target_account_id))) [
          | inl neither ↦
              let zero_effect =
                total-elsewhere (amount_of rates tx uid user_base live plus) a fu tx.tx_type
                  tx.source_account_id tx.target_account_id k neither in
              ground arith
          | inr one ↦
              elim (Option-cases (
                convert_snapshot_to_currency rates tx.amount_original tx.amount (some tx.currency)
                  (upper (or_text (some a.currency_code) default_currency)) user_base
                  tx.exchange_rate live)) [
                    | inl unknown ↦ ground arith
                    | inr (x, known) ↦
                        let all =
                          total-effect (amount_of rates tx uid user_base live plus) a x
                            (amount-known x known) fu tx.tx_type tx.source_account_id
                            tx.target_account_id k distinct in
                        ground arith
                  ]
        ]
