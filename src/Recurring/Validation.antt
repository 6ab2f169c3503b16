-- ===== src/Recurring/Validation.antt =====
-- `validate_recurrence_rule` and `validate_transaction_type` of
-- server/app/services/transaction/recurring_service.py. Whether `rrulestr` parses a text is a
-- parameter.
use finvo.Prelude.{
  ℕ, zero, suc, Bool, true, false, not, ◌||◌, Option, none, some, List, [], ◌∷◌, ◌++◌, ◌==◌,
  if◌then◌else◌,
}
use finvo.Prelude.Text.{Text, codes, strip, text_eq, upper}
use finvo.Prelude.Exec.{Outcome, ok, err}
use finvo.Ledger.Model.{TxType, expense, income, transfer}
use finvo.Settings.Inference.{is_among}
use finvo.Recurring.Schedule.{drop_prefix}

pub data RuleError : Type 0 where
  invalid_recurrence_rule validation_error null_timezone : RuleError

abbrev pub is_empty : Text → Bool
is_empty [] = true
is_empty (c ∷ t) = false

abbrev pub is_found : Option Text → Bool
is_found none = false
is_found (some t) = true

-- `t.startswith(p)`
abbrev pub starts_with : Text → Text → Bool
starts_with p t = is_found (drop_prefix p t)

-- `rule.split(";")[0]`
unfoldable pub first_part : Text → Text
first_part [] = []
first_part (c ∷ t) = let rest = first_part t in if c == b';' then [] else c ∷ rest

-- `t.replace("FREQ=", "")`, with the characters to leave out
unfoldable pub without_freq : ℕ → Text → Text
unfolding drop_prefix
without_freq k [] = []
without_freq (suc k) (c ∷ t) = without_freq k t
without_freq zero (c ∷ t) =
    let inside = without_freq 4 t in
    let rest = without_freq 0 t in if starts_with (codes "FREQ=") (c ∷ t) then inside else c ∷ rest

abbrev pub valid_freqs : List Text
valid_freqs = codes "DAILY" ∷ codes "WEEKLY" ∷ codes "MONTHLY" ∷ codes "YEARLY" ∷ []

abbrev pub formatted : Text → Text
formatted rule = if starts_with (codes "RRULE:") rule then rule else codes "RRULE:" ++ rule

-- the test of a rule that is stripped and in upper case
unfoldable pub validate_upper : (Text → Bool) → Text → Outcome RuleError Text
unfolding drop_prefix first_part without_freq is_among
validate_upper parses rule =
    if not (starts_with (codes "FREQ=") rule)
    then err invalid_recurrence_rule
    else if not (is_among (without_freq 0 (first_part rule)) valid_freqs)
    then err invalid_recurrence_rule
    else if not (parses (formatted rule))
    then err invalid_recurrence_rule
    else ok rule

unfoldable pub validate_recurrence_rule : (Text → Bool) → Text → Outcome RuleError Text
unfolding validate_upper strip upper
validate_recurrence_rule parses v =
    if is_empty v || is_empty (strip v)
    then err invalid_recurrence_rule
    else validate_upper parses (upper (strip v))

-- The type is the text in upper case.
unfoldable pub validate_transaction_type : Text → Outcome RuleError TxType
unfolding text_eq upper
validate_transaction_type v =
    if text_eq (upper v) (codes "EXPENSE")
    then ok expense
    else if text_eq (upper v) (codes "INCOME")
    then ok income
    else if text_eq (upper v) (codes "TRANSFER")
    then ok transfer
    else err validation_error
