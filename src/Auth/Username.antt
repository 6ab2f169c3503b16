-- ===== src/Auth/Username.antt =====
-- `_generate_username` of server/app/services/auth_service.py. The random suffix is an argument. A
-- username is made of the ASCII letters, digits and underscores of an address, or of the last four
-- ASCII digits of a number.
use mathlib.Core.List.{reverse}
use finvo.Prelude.{
  ℕ, zero, suc, ◌-◌, Bool, false, ◌&&◌, ◌||◌, [], ◌∷◌, ◌++◌, ◌==◌, ltb, leb, if◌then◌else◌,
}
use finvo.Prelude.Lists.{length, select}
use finvo.Prelude.Text.{Text, codes, text_eq}

abbrev pub max_len : ℕ
max_len = 30

abbrev pub suffix_len : ℕ
suffix_len = 5

-- `t[:n]`
unfoldable pub take : ℕ → Text → Text
take zero t = []
take (suc n) [] = []
take (suc n) (c ∷ t) = c ∷ take n t

-- `t.split("@")[0]`
unfoldable pub local_part : Text → Text
local_part [] = []
local_part (c ∷ t) = let rest = local_part t in if c == b'@' then [] else c ∷ rest

-- `[.+\-]` becomes an underscore
unfoldable pub joined : Text → Text
joined [] = []
joined (c ∷ t) = (if c == b'.' || c == b'+' || c == b'-' then b'_' else c) ∷ joined t

unfoldable pub is_word : ℕ → Bool
is_word c =
    leb b'a' c && leb c b'z' || leb b'A' c && leb c b'Z' || leb b'0' c && leb c b'9' || c == b'_'

-- `re.sub(r"_+", "_", t)`, after a character that is an underscore or not
unfoldable pub collapsed : Bool → Text → Text
collapsed after_one [] = []
collapsed after_one (c ∷ t) =
    let once = collapsed (c == b'_') t in if after_one && c == b'_' then once else c ∷ once

-- `t.lstrip("_")`
unfoldable pub lstrip_underscores : Text → Text
lstrip_underscores [] = []
lstrip_underscores (c ∷ t) = let rest = lstrip_underscores t in if c == b'_' then rest else c ∷ t

-- `t.rstrip("_")`
unfoldable pub rstrip_underscores : Text → Text
unfolding lstrip_underscores
rstrip_underscores t = reverse (lstrip_underscores (reverse t))

unfoldable pub is_digit : ℕ → Bool
is_digit c = leb b'0' c && leb c b'9'

abbrev pub last_four : Text → Text
last_four t = reverse (take 4 (reverse t))

abbrev pub base_of_number : Text → Text
base_of_number digits =
    if leb 4 (length digits) then codes "user_" ++ last_four digits else codes "user"

unfoldable pub base_of : Text → Text → Text
unfolding local_part joined is_word collapsed rstrip_underscores lstrip_underscores is_digit take
base_of account_type account =
    if text_eq account_type (codes "email")
    then rstrip_underscores
        (lstrip_underscores (collapsed false (select is_word (joined (local_part account)))))
    else base_of_number (select is_digit account)

abbrev pub or_generic : Text → Text
or_generic base = if ltb (length base) 2 then codes "user" else base

-- The suffix has `suffix_len - 1` characters.
unfoldable pub generate_username : Text → Text → Text → Text
unfolding base_of rstrip_underscores take
generate_username suffix account account_type =
    or_generic (rstrip_underscores (take (max_len - suffix_len) (base_of account_type account)))
    ++ b'_' ∷ suffix
