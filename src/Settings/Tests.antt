-- ===== src/Settings/Tests.antt =====
-- Runs of the settings of one user with a transaction in euros.
use finvo.Prelude.{ℕ, ◌≡◌, refl, true, none, some, [], ◌∷◌, ◌==◌, if◌then◌else◌}
use finvo.Prelude.Int.{pos}
use finvo.Prelude.Text.{or_text, codes, text_eq, upper}
use finvo.Prelude.Exec.{ok, final}
use finvo.Ledger.Model.{Transaction, expense, cleared}
use finvo.Settings.Inference.{infer_currency}
use finvo.Settings.Store.{FinancialSettings, Market, Tables, ai_auto}
use finvo.Settings.Service.{
  SettingsData, convert_rows, recalculate_transaction_amounts, update_financial_settings,
}
use finvo.Settings.Laws.{infer_currency-supported, update_financial_settings-derived}
use finvo.Settings.Inference.{is_among, supported_currency_codes}

korean : infer_currency (some (codes "ko-KR")) (some (codes "Asia/Tokyo")) ≡ codes "JPY"
unfolding infer_currency text_eq is_among
korean = refl

chinese_supported :
    is_among (infer_currency (some (codes "zh-CN")) none) supported_currency_codes ≡ true
chinese_supported = infer_currency-supported (some (codes "zh-CN")) none

abbrev market : ℕ → Market
market n = record {
  rates = record { live = λ from to x. none; quot = λ a b. a; prod = λ a b. b };
  rate = λ from to. some (pos n);
  one = pos 1;
  quantize = λ a. a;
}

abbrev hotel : ℕ → Transaction
hotel amount = record {
  uuid = 7;
  user_uuid = 9;
  tx_type = expense;
  status = cleared;
  amount = pos amount;
  amount_original = pos 20;
  currency = codes "EUR";
  exchange_rate = some (pos amount);
  source_account_id = none;
  target_account_id = none;
}

abbrev cny_settings : FinancialSettings
cny_settings = record {
  safety_threshold = pos 0;
  daily_burn_rate = pos 0;
  burn_rate_mode = ai_auto;
  primary_currency = codes "CNY";
  month_start_day = 1;
}

abbrev tables : Tables
tables = record {
  financial = λ k. if k == 9 then some cny_settings else none;
  user = λ k. none;
  transactions = hotel 8 ∷ [];
}

recalculated : (recalculate_transaction_amounts (market 3) 9 (codes "USD") tables).0 ≡ ok tt
unfolding recalculate_transaction_amounts text_eq upper or_text
recalculated = refl

abbrev to_usd : SettingsData
to_usd = record {
  safety_threshold = none;
  daily_burn_rate = none;
  burn_rate_mode = none;
  primary_currency = some (codes "USD");
  month_start_day = none;
}

abbrev usd_settings : FinancialSettings
usd_settings = record cny_settings { primary_currency = codes "USD" }

changed_to_usd : (update_financial_settings (market 3) 9 to_usd tables).0 ≡ ok usd_settings
unfolding update_financial_settings text_eq upper or_text
changed_to_usd = refl

-- Without a stored row the amounts stay as they are, whatever the currency.
first_currency :
    (final (update_financial_settings (market 3) 8 to_usd tables)).transactions
    ≡ tables.transactions
unfolding update_financial_settings
first_currency = refl

update_financial_settings-derived_example :
    let s' = final (update_financial_settings (market 3) 9 to_usd tables) in
    (codes "USD" ≡ codes "USD")
    × (convert_rows (market 3) 9 (codes "USD") tables.transactions ≡ some s'.transactions)
    × (convert_rows (market 3) 9 (codes "USD") s'.transactions ≡ some s'.transactions)
unfolding text_eq upper
update_financial_settings-derived_example =
    update_financial_settings-derived (market 3) 9 to_usd (codes "USD") tables cny_settings
      usd_settings refl refl refl changed_to_usd
