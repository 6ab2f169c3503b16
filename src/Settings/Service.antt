-- ===== src/Settings/Service.antt =====
-- The settings of server/app/services/user_service.py. Amounts and modes are parsed before; a parsed
-- amount that is missing is `none`.
use finvo.Prelude.{ℕ, Option, none, some, List, [], ◌∷◌, ◌*◌, ◌==◌, if◌then◌else◌}
use finvo.Prelude.Int.{ℤ, pos}
use finvo.Prelude.Text.{Text, codes, or_text, text_eq, upper}
use finvo.Prelude.Exec.{ok, err, pure, gets, modify, ◌>>=◌, ◌>>◌}
use finvo.Ledger.Model.{Transaction}
use finvo.Ledger.Convert.{convert_to_user_base}
use finvo.Ledger.Expected.{default_currency}
use finvo.Settings.Inference.{infer_currency}
use finvo.Settings.Store.{
  BurnRateMode, ai_auto, FinancialSettings, UserSettings, Tables, Market, exchange_rate_unavailable,
  Change,
}

abbrev pub units : ℕ → ℤ
units n = pos (n * 100000000)

abbrev pub set_financial : ℕ → FinancialSettings → Tables → Tables
set_financial u f s = record s { financial = λ k. if u == k then some f else s.financial k }

abbrev pub set_user : ℕ → UserSettings → Tables → Tables
set_user u f s = record s { user = λ k. if u == k then some f else s.user k }

abbrev pub get_or : {A : Type 0} → Option A → A → A
get_or none d = d
get_or (some a) d = a

-- `create_default_financial_settings`
unfoldable pub create_default_financial_settings :
    ℕ → Option Text → Option Text → Change FinancialSettings
unfolding infer_currency
create_default_financial_settings u locale timezone = do
  let settings : FinancialSettings = record {
    safety_threshold = units 1000;
    daily_burn_rate = units 100;
    burn_rate_mode = ai_auto;
    primary_currency = infer_currency locale timezone;
    month_start_day = 1;
  }
  modify (set_financial u settings)
  pure settings

abbrev pub or_create : ℕ → Option FinancialSettings → Change FinancialSettings
or_create u none = create_default_financial_settings u none none
or_create u (some settings) = pure settings

unfoldable pub get_financial_settings : ℕ → Change FinancialSettings
unfolding create_default_financial_settings
get_financial_settings u = do found ← gets (λ s. s.financial u); or_create u found

-- the row with its amount in the base currency computed again, `none` where there is no rate
unfoldable pub convert_row : Market → ℕ → Text → Transaction → Option Transaction
unfolding convert_to_user_base
convert_row m u base tx =
    if tx.user_uuid == u
    then (elim (convert_to_user_base m.rates m.rate m.one tx.amount_original
        (upper (or_text (some tx.currency) base)) base) [
          | none ↦ none
          | some (amount, rate) ↦
              some
                (record tx { amount = m.quantize amount; exchange_rate = some (m.quantize rate) })
        ])
    else some tx

abbrev pub cons_both : Option Transaction → Option (List Transaction) → Option (List Transaction)
cons_both none rest = none
cons_both (some tx) none = none
cons_both (some tx) (some rest) = some (tx ∷ rest)

-- All rows are converted before any is written.
unfoldable pub convert_rows : Market → ℕ → Text → List Transaction → Option (List Transaction)
unfolding convert_row
convert_rows m u base [] = some []
convert_rows m u base (tx ∷ rest) = cons_both (convert_row m u base tx) (convert_rows m u base rest)

abbrev pub write_rows : Option (List Transaction) → Change (Unit {0})
write_rows none s = (err exchange_rate_unavailable, s)
write_rows (some txs) s = (ok tt, record s { transactions = txs })

-- `_recalculate_transaction_amounts`
unfoldable pub recalculate_transaction_amounts : Market → ℕ → Text → Change (Unit {0})
unfolding convert_rows
recalculate_transaction_amounts m u base = do
  rows ← gets (λ s. convert_rows m u base s.transactions)
  write_rows rows

-- the arguments of an update
pub record SettingsData : Type 0 where
  pub safety_threshold : Option ℤ
  pub daily_burn_rate : Option ℤ
  pub burn_rate_mode : Option BurnRateMode
  pub primary_currency : Option Text
  pub month_start_day : Option ℕ

-- `month_start_day or 1`
abbrev pub or_first : Option ℕ → ℕ
or_first none = 1
or_first (some n) = if n == 0 then 1 else n

abbrev pub first_settings : SettingsData → FinancialSettings
first_settings q = record {
  safety_threshold = get_or q.safety_threshold (units 1000);
  daily_burn_rate = get_or q.daily_burn_rate (units 100);
  burn_rate_mode = get_or q.burn_rate_mode ai_auto;
  primary_currency = or_text q.primary_currency default_currency;
  month_start_day = or_first q.month_start_day;
}

abbrev pub changed : SettingsData → FinancialSettings → FinancialSettings
changed q f = record {
  safety_threshold = get_or q.safety_threshold f.safety_threshold;
  daily_burn_rate = get_or q.daily_burn_rate f.daily_burn_rate;
  burn_rate_mode = get_or q.burn_rate_mode f.burn_rate_mode;
  primary_currency = get_or q.primary_currency f.primary_currency;
  month_start_day = get_or q.month_start_day f.month_start_day;
}

-- the base currency actually changes
abbrev pub recalculate_if_changed : Market → ℕ → Option Text → Text → Text → Change (Unit {0})
recalculate_if_changed m u none old new = pure tt
recalculate_if_changed m u (some c) old new =
    if text_eq (upper old) (upper new) then pure tt else recalculate_transaction_amounts m u new

abbrev pub upsert : Market → ℕ → SettingsData → Option FinancialSettings → Change FinancialSettings
upsert m u q none = do modify (set_financial u (first_settings q)); pure (first_settings q)
upsert m u q (some f) = do
  modify (set_financial u (changed q f))
  recalculate_if_changed m u q.primary_currency f.primary_currency (changed q f).primary_currency
  pure (changed q f)

unfoldable pub update_financial_settings : Market → ℕ → SettingsData → Change FinancialSettings
unfolding recalculate_transaction_amounts
update_financial_settings m u q = do found ← gets (λ s. s.financial u); upsert m u q found

-- the row of `update_user_settings`: an empty text gives way only in a new row
abbrev pub user_settings : Option Text → Option Text → Option UserSettings → UserSettings
user_settings threshold spending none = record {
  safety_balance_threshold = or_text threshold (codes "0.00");
  avg_daily_spending = or_text spending (codes "0.00");
}
user_settings threshold spending (some f) = record {
  safety_balance_threshold = get_or threshold f.safety_balance_threshold;
  avg_daily_spending = get_or spending f.avg_daily_spending;
}

unfoldable pub update_user_settings : ℕ → Option Text → Option Text → Change UserSettings
update_user_settings u threshold spending = do
  found ← gets (λ s. s.user u)
  modify (set_user u (user_settings threshold spending found))
  pure (user_settings threshold spending found)

-- The other column of a new row has its default.
abbrev pub safety_line : Text → Option UserSettings → UserSettings
safety_line threshold none = record {
  safety_balance_threshold = threshold;
  avg_daily_spending = codes "100.00";
}
safety_line threshold (some f) = record f { safety_balance_threshold = threshold }

unfoldable pub update_financial_safety_line : ℕ → Text → Change Text
update_financial_safety_line u threshold = do
  found ← gets (λ s. s.user u)
  modify (set_user u (safety_line threshold found))
  pure threshold
