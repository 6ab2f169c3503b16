-- ===== src/Auth/Laws/Register.antt =====
-- A registration (`register` of server/app/services/auth_service.py).
use finvo.Prelude.{
  ◌≡◌, refl, Bool, true, false, not, Option, some, List, [], ◌∷◌, ==_refl, Bool-cases, inl, inr,
}
use finvo.Prelude.Lists.{select, select-append}
use finvo.Prelude.Text.{Text, text_eq_refl}
use finvo.Prelude.Exec.{Outcome, Ensures-if, Ensures, err, final, ok, of_ensures}
use finvo.Auth.Redis.{Redis}
use finvo.Auth.Codes.{AuthError, registration_closed}
use finvo.Auth.Login.{User, is_account}
use finvo.Auth.Register.{
  Registrar, Registry, check_code, if_verified, insert_user, is_email, new_user, normalized,
  register, registered, unless_exists,
}
use finvo.Settings.Store.{FinancialSettings, ai_auto}
use finvo.Settings.Service.{create_default_financial_settings, units}
use finvo.Settings.Inference.{infer_currency, is_among, supported_currency_codes}
use finvo.Settings.Laws.{infer_currency-supported}

-- The user is the one row of the account, with settings in a supported currency.
pub record IsRegistered {S : Type 0} (account_type account : Text) (user : User) (s : Registry S)
    : Type 0 where
  pub alone : select (is_account account_type (normalized account_type account)) s.users ≡ user ∷ []
  pub settings : FinancialSettings
  pub stored : s.settings.financial user.uuid ≡ some settings
  pub supported : is_among settings.primary_currency supported_currency_codes ≡ true

module _ {S : Type 0} (r : Redis S) (site : Registrar) (account_type password timezone : Text)
    (client_ip locale : Option Text) (account : Text) where
  abbrev key : Text
  key = normalized account_type account

  abbrev user : User
  user = new_user site account_type key password timezone client_ip

  is_account-new :
      (t : Text)
      → is_account account_type t (new_user site account_type t password timezone client_ip) ≡ true
  unfolding is_account
  is_account-new t = elim (Bool-cases (is_email account_type)) [
    | inl mail ↦ rw mail (text_eq_refl t)
    | inr phone ↦ rw phone (text_eq_refl t)
  ]

  insert_user-IsRegistered :
      (s : Registry S)
      → select (is_account account_type key) s.users ≡ []
      → Ensures
          (IsRegistered account_type account)
          (insert_user r site account_type password timezone client_ip locale key s)
  unfolding create_default_financial_settings select
  insert_user-IsRegistered s free = record {
    alone =
        rw
          (
            select-append (is_account account_type key) s.users (user ∷ []),
            free,
            is_account-new key,
          )
          refl;
    settings = record {
      safety_threshold = units 1000;
      daily_burn_rate = units 100;
      burn_rate_mode = ai_auto;
      primary_currency = infer_currency locale (some timezone);
      month_start_day = 1;
    };
    stored = rw (==_refl site.new_uuid) refl;
    supported = infer_currency-supported locale (some timezone);
  }

  if_verified-IsRegistered :
      (x : Outcome AuthError Bool × S) (s : Registry S)
      → select (is_account account_type key) s.users ≡ []
      → Ensures
          (IsRegistered account_type account)
          (if_verified r site account_type password timezone client_ip locale key x s)
  if_verified-IsRegistered (ok false, redis) s free = tt
  if_verified-IsRegistered (err e, redis) s free = tt
  if_verified-IsRegistered (ok true, redis) s free =
      Ensures-if (IsRegistered account_type account) site.raced
        (err (registered account_type), record s { redis = redis })
        (insert_user r site account_type password timezone client_ip locale key
          (record s { redis = redis }))
        tt (insert_user-IsRegistered (record s { redis = redis }) free)

  register-IsRegistered :
      (code : Text) (s : Registry S)
      → Ensures
          (IsRegistered account_type account)
          (register r site account_type password timezone client_ip locale account code s)
  unfolding register
  register-IsRegistered code s =
      Ensures-if (IsRegistered account_type account) (not site.registration_open)
        (err registration_closed, s)
        (unless_exists r site account_type password timezone client_ip locale
          (select (is_account account_type key) s.users) key code s)
        tt (go (select (is_account account_type key) s.users) refl)
    where
      go :
          (rows : List User)
          → select (is_account account_type key) s.users ≡ rows
          → Ensures
              (IsRegistered account_type account)
              (unless_exists r site account_type password timezone client_ip locale rows key code s)
      go [] free =
          if_verified-IsRegistered
            (check_code r site account_type password timezone client_ip locale key code s) s free
      go (u ∷ []) e = tt
      go (u ∷ v ∷ rest) e = tt

-- A registration that returns leaves the user as the only one of the account, with settings in a
-- supported currency. The next registration of the same account, up to the case and the white space
-- that are normalized away, is refused as one that exists, and changes nothing, whatever its code,
-- as long as registration is open.
pub register-once :
    {S : Type 0} (r : Redis S) (site site' : Registrar)
    (account_type password password' timezone timezone' : Text)
    (client_ip client_ip' locale locale' : Option Text) (account account' code code' : Text)
    (s : Registry S) (u : User)
    → site'.registration_open ≡ true
    → normalized account_type account' ≡ normalized account_type account
    → (register r site account_type password timezone client_ip locale account code s).0 ≡ ok u
    → let s' =
        final (register r site account_type password timezone client_ip locale account code s) in
      IsRegistered account_type account u s'
      × (register r site' account_type password' timezone' client_ip' locale' account' code' s'
          ≡ (err (registered account_type), s'))
unfolding register
register-once r site site' account_type password password' timezone timezone' client_ip client_ip'
      locale locale' account account' code code' s u allowed same h =
    let s' =
      final (register r site account_type password timezone client_ip locale account code s) in
    let there : IsRegistered account_type account u s' =
      of_ensures (IsRegistered account_type account)
        (register r site account_type password timezone client_ip locale account code s) u
        (register-IsRegistered r site account_type password timezone client_ip locale account code
          s)
        h in
    (there, rw (allowed, same, there.alone) refl)
