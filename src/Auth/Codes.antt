-- ===== src/Auth/Codes.antt =====
-- server/app/services/code_manager.py: the verification codes of CodeManager.
use finvo.Prelude.{
  ℕ, Bool, true, false, Option, none, some, [], ◌∷◌, ◌++◌, ◌==◌, leb, ltb, ◌&&◌, if◌then◌else◌,
}
use finvo.Prelude.Text.{Text, codes, text_eq}
use finvo.Prelude.Exec.{Outcome, Exec, ok, err}
use finvo.Auth.Redis.{Redis}
use finvo.Auth.Cache.{
  cache_get, cache_set, cache_set_nx, cache_delete, cache_increment, cache_expire,
}

abbrev pub expire_seconds : ℕ
expire_seconds = 300

abbrev pub rate_limit_seconds : ℕ
rate_limit_seconds = 60

abbrev pub max_attempts : ℕ
max_attempts = 5

unfoldable pub code_key : Text → Text
code_key account = codes "verification_code:" ++ account

unfoldable pub rate_limit_key : Text → Text
rate_limit_key account = codes "code_rate_limit:" ++ account

unfoldable pub attempts_key : Text → Text
attempts_key account = codes "code_attempts:" ++ account

pub data AuthError : Type 0 where
  unsupported_code_type code_send_too_frequently send_code_failed : AuthError
  rate_limited authenticate_failed multiple_rows : AuthError
  registration_closed email_registered phone_number_registered code_expired : AuthError
  type_error : AuthError

pub data Sender : Type 0 where
  email_sender sms_sender : Sender

-- `_find_sender`
unfoldable pub find_sender : Text → Option Sender
find_sender code_type =
    if text_eq code_type (codes "email")
    then some email_sender
    else if text_eq code_type (codes "mobile")
    then some sms_sender
    else none

-- Both senders only log so far, and report success.
unfoldable pub send : Sender → Text → Text → Bool
send email_sender account code = true
send sms_sender account code = true

unfoldable pub is_ascii : Text → Bool
is_ascii [] = true
is_ascii (c ∷ rest) = ltb c 128 && is_ascii rest

-- `hmac.compare_digest`, which raises a TypeError on a text with other characters than ASCII
abbrev pub compare_digest : Text → Text → Outcome AuthError Bool
compare_digest a b = if is_ascii a && is_ascii b then ok (text_eq a b) else err type_error

-- `stored_code and hmac.compare_digest(stored_code, code)`
abbrev pub matches : Option Text → Text → Outcome AuthError Bool
matches none code = ok false
matches (some []) code = ok false
matches (some (c ∷ rest)) code = compare_digest (c ∷ rest) code

module _ {S : Type 0} (r : Redis S) where
  -- `_release_rate_limit_lock`
  abbrev pub release_rate_limit_lock : Text → S → S
  release_rate_limit_lock account s = (cache_delete r (rate_limit_key account) s).1

  -- `_store_code`
  unfoldable pub store_code : Text → Text → S → Bool × S
  unfolding cache_set code_key
  store_code account code s = cache_set r (code_key account) code expire_seconds s

  -- The `try` statement of `send_code`; the error that it raises passes its own handler.
  unfoldable pub deliver : Sender → Text → Text → Exec S AuthError Bool
  unfolding send store_code cache_delete rate_limit_key
  deliver sender account code s =
      if send sender account code
      then (let (stored, s') = store_code account code s in
          if stored then (ok true, s') else (
            err send_code_failed,
            release_rate_limit_lock account (release_rate_limit_lock account s'),
          ))
      else (ok false, release_rate_limit_lock account s)

  abbrev pub deliver_by : Option Sender → Text → Text → Exec S AuthError Bool
  deliver_by none account code s = (err unsupported_code_type, s)
  deliver_by (some sender) account code s =
      let (acquired, s') =
        cache_set_nx r (rate_limit_key account) (codes "1") rate_limit_seconds s in
      if acquired then deliver sender account code s' else (err code_send_too_frequently, s')

  -- `code` is what `_generate_code` draws.
  unfoldable pub send_code : Text → Text → Text → Exec S AuthError Bool
  unfolding find_sender cache_set_nx deliver rate_limit_key
  send_code code_type account code = deliver_by (find_sender code_type) account code

  abbrev pub void_code : Text → S → S
  void_code account s =
      (cache_delete r (attempts_key account) (cache_delete r (code_key account) s).1).1

  abbrev pub after_count : Text → Option ℕ → S → S
  after_count account none s = s
  after_count account (some count) s =
      let s' =
        if count == 1 then (cache_expire r (attempts_key account) expire_seconds s).1 else s in
      if leb max_attempts count then void_code account s' else s'

  -- `_record_failed_attempt`
  unfoldable pub record_failed_attempt : Text → S → S
  unfolding cache_increment cache_expire cache_delete code_key attempts_key
  record_failed_attempt account s =
      let (count, s') = cache_increment r (attempts_key account) s in after_count account count s'

  -- the rest of `verify_code`, unless the comparison has raised
  abbrev pub concluded : Text → Outcome AuthError Bool → Exec S AuthError Bool
  concluded account (ok true) s = (ok true, void_code account s)
  concluded account (ok false) s = (ok false, record_failed_attempt account s)
  concluded account (err e) s = (err e, s)

  unfoldable pub verify_code : Text → Text → Exec S AuthError Bool
  unfolding cache_get cache_delete record_failed_attempt code_key attempts_key is_ascii
  verify_code account code s = concluded account (matches (cache_get r (code_key account) s) code) s
