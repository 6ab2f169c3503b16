-- ===== src/Auth/Login.antt =====
-- server/app/services/auth_service.py: the login, and the count of failed ones.
use finvo.Prelude.{
  ℕ, Bool, true, false, not, Option, none, some, List, [], ◌∷◌, ◌++◌, ◌==◌, ◌*◌, leb, if◌then◌else◌,
}
use finvo.Prelude.Lists.{select, update_where}
use finvo.Prelude.Text.{Text, codes, text_eq, strip, lower}
use finvo.Prelude.Exec.{Exec, ok, err}
use finvo.Auth.Redis.{Redis}
use finvo.Auth.Cache.{cache_get, cache_delete, cache_increment, cache_expire}
use finvo.Auth.Codes.{AuthError, rate_limited, authenticate_failed, multiple_rows}

abbrev pub max_login_failures : ℕ
max_login_failures = 5

abbrev pub login_lock_seconds : ℕ
login_lock_seconds = 15 * 60

-- the columns that a login reads or writes
pub record User : Type 0 where
  pub uuid : ℕ
  pub email : Option Text
  pub mobile : Option Text
  pub password : Text
  pub timezone : Text
  pub last_login_ip : Option Text
  pub last_login_at : ℕ

-- `bcrypt.checkpw`, `none` where it raises a ValueError; the clock and the signing of tokens
pub record Site : Type 0 where
  pub checkpw : Text → Text → Option Bool
  pub now : ℕ
  pub create_access_token : ℕ → Text

-- `_login_failures_key`
unfoldable pub login_failures_key : Text → Text → Text
login_failures_key account_type account =
    codes "login_failures:" ++ (account_type ++ (codes ":" ++ lower (strip account)))

abbrev pub or_mismatch : Option Bool → Bool
or_mismatch none = false
or_mismatch (some b) = b

unfoldable pub verify_password : Site → User → Text → Bool
verify_password site u password = or_mismatch (site.checkpw password u.password)

abbrev column_is : Option Text → Text → Bool
column_is none account = false
column_is (some t) account = text_eq t account

-- the query for the user of an account
unfoldable pub is_account : Text → Text → User → Bool
is_account account_type account u =
    if text_eq account_type (codes "email")
    then column_is u.email account
    else column_is u.mobile account

abbrev given_ip : Option Text → Option Text → Option Text
given_ip none old = old
given_ip (some []) old = old
given_ip (some (c ∷ ip)) old = some (c ∷ ip)

-- the user's row after a login
abbrev pub logged_in : Site → Text → Option Text → User → User
logged_in site timezone client_ip u = record u {
  timezone = timezone;
  last_login_ip = given_ip client_ip u.last_login_ip;
  last_login_at = site.now;
}

pub record Sites (S : Type 0) : Type 0 where
  pub users : List User
  pub redis : S

module _ {S : Type 0} (r : Redis S) where
  abbrev pub too_many : Option ℕ → Bool
  too_many none = false
  too_many (some n) = leb max_login_failures n

  abbrev pub is_locked : Option Text → Bool
  is_locked none = false
  is_locked (some raw) = too_many (r.int raw)

  -- `_login_locked`
  unfoldable pub login_locked : Text → S → Bool
  unfolding cache_get
  login_locked key s = is_locked (cache_get r key s)

  abbrev pub after_failure : Text → Option ℕ → S → S
  after_failure key none s = s
  after_failure key (some count) s =
      if count == 1 then (cache_expire r key login_lock_seconds s).1 else s

  -- `_record_login_failure`
  unfoldable pub record_login_failure : Text → Bool → S → S
  unfolding cache_increment cache_expire
  record_login_failure key user_exists s =
      if not user_exists
      then s
      else (let (count, s') = cache_increment r key s in after_failure key count s')

  -- `_clear_login_failures`
  unfoldable pub clear_login_failures : Text → S → S
  unfolding cache_delete
  clear_login_failures key s = (cache_delete r key s).1

  module _ (site : Site) (account_type account : Text) where
    -- `Invalid credentials`, after the failure is counted
    abbrev refuse : Bool → Exec (Sites S) AuthError (User × Text)
    refuse user_exists s = (
      err authenticate_failed,
      record s {
        redis = record_login_failure (login_failures_key account_type account) user_exists s.redis;
      },
    )

    abbrev accept : User → Text → Option Text → Exec (Sites S) AuthError (User × Text)
    accept u timezone client_ip s =
        let u' = logged_in site timezone client_ip u in
        let token : User × Text = (u', site.create_access_token u.uuid) in
        (
          ok token,
          record s {
            users =
                update_where (λ x. x.uuid == u.uuid) (logged_in site timezone client_ip) s.users;
            redis = clear_login_failures (login_failures_key account_type account) s.redis;
          },
        )

    -- the login of the users that the query has found
    abbrev pub login_found :
        List User → Text → Text → Option Text → Exec (Sites S) AuthError (User × Text)
    login_found [] password timezone client_ip s = refuse false s
    login_found (u ∷ []) password timezone client_ip s =
        if verify_password site u password then accept u timezone client_ip s else refuse true s
    login_found (u ∷ v ∷ rest) password timezone client_ip s = (err multiple_rows, s)

    unfoldable pub login : Text → Text → Option Text → Exec (Sites S) AuthError (User × Text)
    unfolding login_locked login_failures_key record_login_failure clear_login_failures
        verify_password is_account
    login password timezone client_ip s =
        if login_locked (login_failures_key account_type account) s.redis
        then (err rate_limited, s)
        else login_found (select (is_account account_type account) s.users) password timezone
            client_ip s
