-- ===== src/Settings/Store.antt =====
-- The rows of server/app/models/financial_settings.py and user_settings.py, the transactions whose
-- base amounts depend on them, and the errors.
use finvo.Prelude.{Option, ℕ, List}
use finvo.Prelude.Int.{ℤ}
use finvo.Prelude.Text.{Text}
use finvo.Prelude.Exec.{Exec}
use finvo.Ledger.Model.{Transaction, Rates}

pub data BurnRateMode : Type 0 where
  manual ai_auto : BurnRateMode

pub record FinancialSettings : Type 0 where
  pub safety_threshold : ℤ
  pub daily_burn_rate : ℤ
  pub burn_rate_mode : BurnRateMode
  pub primary_currency : Text
  pub month_start_day : ℕ

-- Both columns are texts.
pub record UserSettings : Type 0 where
  pub safety_balance_threshold : Text
  pub avg_daily_spending : Text

-- The settings are tables by the user.
pub record Tables : Type 0 where
  pub financial : ℕ → Option FinancialSettings
  pub user : ℕ → Option UserSettings
  pub transactions : List Transaction

-- the rates at the time of a call, the unit 1.0 and the rounding to 8 places
pub record Market : Type 0 where
  pub rates : Rates
  pub rate : Text → Text → Option ℤ
  pub one : ℤ
  pub quantize : ℤ → ℤ

pub data SettingsError : Type 0 where
  exchange_rate_unavailable : SettingsError

abbrev pub Change : Type 0 → Type 0
Change A = Exec Tables SettingsError A
