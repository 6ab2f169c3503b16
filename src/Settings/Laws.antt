-- ===== src/Settings/Laws.antt =====
-- The inferred currency, and the base amounts after a change of the settings.
use finvo.Prelude.{
  ◌∙◌, false, ℕ, ◌≡◌, refl, true, Option, none, some, List, [], ◌∷◌, arith, ◌==◌, Bool-cases,
  Option-cases, inl, inr,
}
use finvo.Prelude.Text.{Text, text_eq, upper, or_text}
use finvo.Prelude.Exec.{ok, final, Ensures, of_ensures, pure, ◌>>◌}
use finvo.Ledger.Model.{Transaction}
use finvo.Ledger.Convert.{convert_to_user_base}
use finvo.Settings.Inference.{
  by_timezone, if_supported, infer_currency, is_among, supported_currency_codes, lookup,
  timezone_currency_map,
}
use finvo.Settings.Store.{FinancialSettings, Tables, Market}
use finvo.Settings.Service.{
  changed, set_financial, recalculate_if_changed, get_or, update_financial_settings, write_rows,
  recalculate_transaction_amounts, SettingsData, convert_row, convert_rows,
}

abbrev IsSupported : Text → Type 0
IsSupported c = is_among c supported_currency_codes ≡ true

if_supported_lem :
    (o : Option Text) (next : Text) → IsSupported next → IsSupported (if_supported o next)
unfolding if_supported
if_supported_lem none next h = h
if_supported_lem (some c) next h = elim (Bool-cases (is_among c supported_currency_codes)) [
  | inl listed ↦ rw listed listed
  | inr other ↦ rw other h
]

by_timezone_lem : (o : Option Text) → IsSupported (by_timezone o)
unfolding by_timezone is_among text_eq
by_timezone_lem none = refl
by_timezone_lem (some t) = if_supported_lem (lookup t timezone_currency_map) _ refl

-- Whatever the locale and the time zone, the inferred currency is a supported one.
pub infer_currency-supported :
    (locale timezone : Option Text)
    → is_among (infer_currency locale timezone) supported_currency_codes ≡ true
unfolding infer_currency
infer_currency-supported none timezone = by_timezone_lem timezone
infer_currency-supported (some []) timezone = by_timezone_lem timezone
infer_currency-supported (some (c ∷ t)) timezone =
    if_supported_lem _ _ (if_supported_lem _ _ (by_timezone_lem timezone))

module _ (m m' : Market) (u : ℕ) (b c : Text) where
  -- A conversion reads nothing that another one has written.
  convert_row-again :
      (tx tx' : Transaction)
      → convert_row m u b tx ≡ some tx'
      → convert_row m' u c tx' ≡ convert_row m' u c tx
  unfolding convert_row
  convert_row-again tx tx' h = elim (Bool-cases (tx.user_uuid == u)) [
    | inr other ↦ ground arith
    | inl own ↦
        elim (Option-cases (
          convert_to_user_base m.rates m.rate m.one tx.amount_original
            (upper (or_text (some tx.currency) b)) b)) [
              | inl unknown ↦ ground arith
              | inr (x, known) ↦ ground arith
            ]
  ]

  convert_rows-again :
      (l l' : List Transaction)
      → convert_rows m u b l ≡ some l'
      → convert_rows m' u c l' ≡ convert_rows m' u c l
  unfolding convert_rows
  convert_rows-again [] l' h = ground arith
  convert_rows-again (tx ∷ l) l' h = elim (Option-cases (convert_row m u b tx)) [
    | inl unknown ↦ ground arith
    | inr (tx', known) ↦ elim (Option-cases (convert_rows m u b l)) [
      | inl unknown ↦ ground arith
      | inr (rest, all) ↦
          let e = convert_row-again tx tx' known in
          let ih = convert_rows-again l rest all in ground arith
    ]
  ]

  forgets-go :
      (s : Tables) (o : Option (List Transaction))
      → convert_rows m u b s.transactions ≡ o
      → (write_rows o s).0 ≡ ok tt
      → ((recalculate_transaction_amounts m' u c (final (write_rows o s))).0
          ≡ (recalculate_transaction_amounts m' u c s).0)
        × ((recalculate_transaction_amounts m' u c s).0 ≡ ok tt
            → final (recalculate_transaction_amounts m' u c (final (write_rows o s)))
              ≡ final (recalculate_transaction_amounts m' u c s))
  unfolding recalculate_transaction_amounts
  forgets-go s none e h = cc
  forgets-go s (some l) e h =
      let again = convert_rows-again s.transactions l e in
      elim (Option-cases (convert_rows m' u c s.transactions)) [
        | inl unknown ↦
            let e' : convert_rows m' u c l ≡ none = again ∙ unknown in
            rw (e', unknown) (refl, λ r. cc)
        | inr (rows, known) ↦
            let e' : convert_rows m' u c l ≡ some rows = again ∙ known in
            rw (e', known) (refl, λ r. refl)
      ]

-- A recalculation depends on the originals alone: after one to the currency `b` that returned, another
-- to `c`, at other rates, returns or raises as it would have without the first, and if it returns then
-- it leaves the same tables.
recalculate_transaction_amounts-forgets :
    (m m' : Market) (u : ℕ) (b c : Text) (s : Tables)
    → (recalculate_transaction_amounts m u b s).0 ≡ ok tt
    → let s' = final (recalculate_transaction_amounts m u b s) in
      ((recalculate_transaction_amounts m' u c s').0 ≡ (recalculate_transaction_amounts m' u c s).0)
      × ((recalculate_transaction_amounts m' u c s).0 ≡ ok tt
          → final (recalculate_transaction_amounts m' u c s')
            ≡ final (recalculate_transaction_amounts m' u c s))
unfolding recalculate_transaction_amounts
recalculate_transaction_amounts-forgets m m' u b c s h =
    forgets-go m m' u b c s (convert_rows m u b s.transactions) refl h

module _ (m : Market) (u : ℕ) (q : SettingsData) (c : Text) (s : Tables) (f : FinancialSettings)
    (there : s.financial u ≡ some f) (asked : q.primary_currency ≡ some c)
    (new : text_eq (upper f.primary_currency) (upper c) ≡ false) where
  -- the currency is the new one, and the amounts are those that it gives
  abbrev Derived : FinancialSettings → Tables → Type 0
  Derived g s' =
      (g.primary_currency ≡ c)
      × (convert_rows m u c s.transactions ≡ some s'.transactions)
      × (convert_rows m u c s'.transactions ≡ some s'.transactions)

  update-Derived : Ensures Derived (update_financial_settings m u q s)
  unfolding update_financial_settings recalculate_transaction_amounts
  update-Derived = rw there (
      go q.primary_currency (changed q f).primary_currency asked
        (new_currency q.primary_currency asked) (changed q f)
        (new_currency q.primary_currency asked))
    where
      new_currency : (o : Option Text) → o ≡ some c → get_or o f.primary_currency ≡ c
      new_currency none e = cc
      new_currency (some d) e = cc

      go :
          (o : Option Text) (d : Text)
          → o ≡ some c
          → d ≡ c
          → (g : FinancialSettings) → g.primary_currency ≡ c
          → Ensures Derived (
              (recalculate_if_changed m u o f.primary_currency d >> pure g)
                (set_financial u (changed q f) s))
      go none d e e' g h = cc
      go (some x) d e e' g h =
          rw (e', new)
            (elim (Option-cases (convert_rows m u c s.transactions)) [
              | inl unknown ↦ rw unknown tt
              | inr (rows, known) ↦
                  rw known
                    (h, known, convert_rows-again m m u c c s.transactions rows known ∙ known)
            ])

-- An update of stored settings to another currency `c` that returns has stored it, and has computed
-- each base amount of the user again from the original: the rows are those of a conversion of the old
-- ones, and converting them again at the same rates changes nothing.
pub update_financial_settings-derived :
    (m : Market) (u : ℕ) (q : SettingsData) (c : Text) (s : Tables) (f g : FinancialSettings)
    → s.financial u ≡ some f
    → q.primary_currency ≡ some c
    → text_eq (upper f.primary_currency) (upper c) ≡ false
    → (update_financial_settings m u q s).0 ≡ ok g
    → let s' = final (update_financial_settings m u q s) in
      (g.primary_currency ≡ c)
      × (convert_rows m u c s.transactions ≡ some s'.transactions)
      × (convert_rows m u c s'.transactions ≡ some s'.transactions)
update_financial_settings-derived m u q c s f g there asked new h =
    of_ensures (Derived m u q c s f there asked new) (update_financial_settings m u q s) g
      (update-Derived m u q c s f there asked new) h
