-- ===== src/Auth/Register.antt =====
-- `register` of server/app/services/auth_service.py. The configuration, the hash of a password, the
-- identifier, the clock, and whether another worker registers the account at the same time are fields
-- of a record. The username and the kind of a registration are columns of their own.
use finvo.Prelude.{
  false, ℕ, Bool, true, not, Option, none, some, List, [], ◌∷◌, ◌++◌, ◌==◌, if◌then◌else◌,
}
use finvo.Prelude.Lists.{select}
use finvo.Prelude.Text.{Text, codes, lower, strip, text_eq}
use finvo.Prelude.Exec.{Outcome, Exec, ok, err, final}
use finvo.Auth.Redis.{Redis}
use finvo.Auth.Codes.{
  AuthError, code_expired, email_registered, multiple_rows, phone_number_registered,
  registration_closed, verify_code,
}
use finvo.Auth.Login.{User, is_account}
use finvo.Auth.Username.{generate_username}
use finvo.Settings.Store.{Tables}
use finvo.Settings.Service.{create_default_financial_settings}

pub record Registrar : Type 0 where
  pub registration_open : Bool
  pub mock_email_provider : Bool
  pub mock_sms_provider : Bool
  pub hash_password : Text → Text
  pub new_uuid : ℕ
  pub suffix : Text
  pub now : ℕ
  pub raced : Bool

pub record Registry (S : Type 0) : Type 0 where
  pub users : List User
  pub usernames : ℕ → Option Text
  pub settings : Tables
  pub redis : S

abbrev pub is_email : Text → Bool
is_email account_type = text_eq account_type (codes "email")

abbrev pub normalized : Text → Text → Text
normalized account_type account =
    if is_email account_type then lower (strip account) else strip account

abbrev pub registered : Text → AuthError
registered account_type =
    if is_email account_type then email_registered else phone_number_registered

abbrev pub is_mock : Registrar → Text → Bool
is_mock site account_type =
    if is_email account_type then site.mock_email_provider else site.mock_sms_provider

-- `if client_ip: ...`
abbrev pub given : Option Text → Option Text
given none = none
given (some []) = none
given (some (c ∷ ip)) = some (c ∷ ip)

abbrev pub new_user : Registrar → Text → Text → Text → Text → Option Text → User
new_user site account_type account password timezone client_ip = record {
  uuid = site.new_uuid;
  email = if is_email account_type then some account else none;
  mobile = if is_email account_type then none else some account;
  password = site.hash_password password;
  timezone = timezone;
  last_login_ip = given client_ip;
  last_login_at = site.now;
}

module _ {S : Type 0} (r : Redis S) (site : Registrar) (account_type password timezone : Text)
    (client_ip locale : Option Text) where
  -- the new user with its username and its settings
  abbrev pub insert_user : Text → Exec (Registry S) AuthError User
  insert_user account s =
      let user = new_user site account_type account password timezone client_ip in
      (
        ok user,
        record s {
          users = s.users ++ user ∷ [];
          usernames = λ k.
              if site.new_uuid == k
              then some (generate_username site.suffix account account_type)
              else s.usernames k;
          settings =
              final
                (create_default_financial_settings site.new_uuid locale (some timezone) s.settings);
        },
      )

  -- the insertion, which fails on a row of another worker
  abbrev pub insert_or_refuse : Text → Exec (Registry S) AuthError User
  insert_or_refuse account s =
      if site.raced then (err (registered account_type), s) else insert_user account s

  abbrev pub if_verified : Text → Outcome AuthError Bool × S → Exec (Registry S) AuthError User
  if_verified account (ok true, redis) s = insert_or_refuse account (record s { redis = redis })
  if_verified account (ok false, redis) s = (err code_expired, record s { redis = redis })
  if_verified account (err e, redis) s = (err e, record s { redis = redis })

  abbrev pub check_code : Text → Text → Registry S → Outcome AuthError Bool × S
  check_code account code s =
      if is_mock site account_type then (ok true, s.redis) else verify_code r account code s.redis

  abbrev pub unless_exists : List User → Text → Text → Exec (Registry S) AuthError User
  unless_exists [] account code s = if_verified account (check_code account code s) s
  unless_exists (u ∷ []) account code s = (err (registered account_type), s)
  unless_exists (u ∷ v ∷ rest) account code s = (err multiple_rows, s)

  unfoldable pub register : Text → Text → Exec (Registry S) AuthError User
  unfolding generate_username create_default_financial_settings verify_code is_account
  register account code s =
      if not site.registration_open
      then (err registration_closed, s)
      else unless_exists
          (select (is_account account_type (normalized account_type account)) s.users)
          (normalized account_type account) code s
