-- ===== src/Auth/Laws/Keys.antt =====
-- The keys of codes, attempts and limits are apart.
use finvo.Prelude.{◌≡◌, refl, false}
use finvo.Prelude.Text.{Text, text_eq}
use finvo.Auth.Codes.{code_key, attempts_key, rate_limit_key}

pub code_key_apart :
    (a b : Text)
    → (text_eq (attempts_key a) (code_key b) ≡ false)
      × (text_eq (rate_limit_key a) (code_key b) ≡ false)
unfolding text_eq code_key attempts_key rate_limit_key
code_key_apart a b = (refl, refl)

pub other_keys_apart :
    (a b : Text)
    → (text_eq (code_key a) (attempts_key b) ≡ false)
      × (text_eq (code_key a) (rate_limit_key b) ≡ false)
      × (text_eq (rate_limit_key a) (attempts_key b) ≡ false)
unfolding text_eq code_key attempts_key rate_limit_key
other_keys_apart a b = (refl, refl, refl)
