-- ===== src/Settings/Inference.antt =====
-- server/app/utils/currency_inference.py: the currency of a new user, from the locale and the time
-- zone, with the list of server/app/core/constants/currency.py.
use Prim.Native.String.{String}
use finvo.Prelude.{Bool, false, ◌||◌, Option, none, some, List, [], ◌∷◌, ◌==◌, if◌then◌else◌}
use finvo.Prelude.Text.{Text, codes, text_eq}
use finvo.Ledger.Expected.{default_currency}

-- SUPPORTED_CURRENCY_CODES
abbrev pub supported_currency_codes : List Text
supported_currency_codes =
    codes "USD"
    ∷ codes "CNY"
    ∷ codes "EUR"
    ∷ codes "GBP"
    ∷ codes "JPY"
    ∷ codes "CAD"
    ∷ codes "AUD"
    ∷ codes "INR"
    ∷ codes "RUB"
    ∷ codes "HKD"
    ∷ codes "TWD"
    ∷ []

unfoldable pub is_among : Text → List Text → Bool
is_among t [] = false
is_among t (x ∷ rest) = text_eq x t || is_among t rest

abbrev entry : String → String → Text × Text
entry k v = (codes k, codes v)

-- LOCALE_CURRENCY_MAP
abbrev pub locale_currency_map : List (Text × Text)
locale_currency_map =
    entry "en_US" "USD"
    ∷ entry "en_GB" "GBP"
    ∷ entry "en_AU" "AUD"
    ∷ entry "en_CA" "CAD"
    ∷ entry "zh_Hant" "TWD"
    ∷ entry "zh_TW" "TWD"
    ∷ entry "zh_HK" "HKD"
    ∷ entry "zh" "CNY"
    ∷ entry "en" "USD"
    ∷ entry "ja" "JPY"
    ∷ entry "ko" "KRW"
    ∷ entry "de" "EUR"
    ∷ entry "fr" "EUR"
    ∷ entry "es" "EUR"
    ∷ entry "it" "EUR"
    ∷ entry "pt" "EUR"
    ∷ entry "ru" "RUB"
    ∷ entry "hi" "INR"
    ∷ []

-- TIMEZONE_CURRENCY_MAP
abbrev pub timezone_currency_map : List (Text × Text)
timezone_currency_map =
    entry "Asia/Shanghai" "CNY"
    ∷ entry "Asia/Chongqing" "CNY"
    ∷ entry "Asia/Urumqi" "CNY"
    ∷ entry "Asia/Taipei" "TWD"
    ∷ entry "Asia/Hong_Kong" "HKD"
    ∷ entry "Asia/Macau" "HKD"
    ∷ entry "Asia/Tokyo" "JPY"
    ∷ entry "Asia/Kolkata" "INR"
    ∷ entry "Asia/Singapore" "USD"
    ∷ entry "America/New_York" "USD"
    ∷ entry "America/Chicago" "USD"
    ∷ entry "America/Denver" "USD"
    ∷ entry "America/Los_Angeles" "USD"
    ∷ entry "America/Anchorage" "USD"
    ∷ entry "Pacific/Honolulu" "USD"
    ∷ entry "America/Toronto" "CAD"
    ∷ entry "America/Vancouver" "CAD"
    ∷ entry "Europe/London" "GBP"
    ∷ entry "Europe/Paris" "EUR"
    ∷ entry "Europe/Berlin" "EUR"
    ∷ entry "Europe/Madrid" "EUR"
    ∷ entry "Europe/Rome" "EUR"
    ∷ entry "Europe/Amsterdam" "EUR"
    ∷ entry "Europe/Moscow" "RUB"
    ∷ entry "Australia/Sydney" "AUD"
    ∷ entry "Australia/Melbourne" "AUD"
    ∷ entry "Australia/Brisbane" "AUD"
    ∷ []

unfoldable pub lookup : Text → List (Text × Text) → Option Text
lookup k [] = none
lookup k ((j, v) ∷ rest) = let found = lookup k rest in if text_eq j k then some v else found

-- `locale.replace("-", "_")`
unfoldable pub underscored : Text → Text
underscored [] = []
underscored (c ∷ t) = (if c == b'-' then b'_' else c) ∷ underscored t

-- `t.split("_")[0]`
unfoldable pub before_underscore : Text → Text
before_underscore [] = []
before_underscore (c ∷ t) = let rest = before_underscore t in if c == b'_' then [] else c ∷ rest

-- the currency of a key in a map, if it is supported, or what comes after
unfoldable pub if_supported : Option Text → Text → Text
if_supported none next = next
if_supported (some c) next = if is_among c supported_currency_codes then c else next

unfoldable pub by_timezone : Option Text → Text
unfolding lookup if_supported
by_timezone none = default_currency
by_timezone (some t) = if_supported (lookup t timezone_currency_map) default_currency

-- an empty locale or time zone is none
unfoldable pub infer_currency : Option Text → Option Text → Text
unfolding by_timezone underscored before_underscore
infer_currency none timezone = by_timezone timezone
infer_currency (some []) timezone = by_timezone timezone
infer_currency (some (c ∷ t)) timezone =
    let normalized = underscored (c ∷ t) in
    if_supported (lookup normalized locale_currency_map) (
      if_supported (lookup (before_underscore normalized) locale_currency_map)
        (by_timezone timezone))
