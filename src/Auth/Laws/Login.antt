-- ===== src/Auth/Laws/Login.antt =====
-- Failed logins and the lock of an account (`login` of server/app/services/auth_service.py).
use finvo.Prelude.{
  ℕ, suc, ◌+◌, ◌<◌, ◌≡◌, refl, true, false, Option, none, some, List, [], ◌∷◌, ◌==◌, leb,
  Bool-cases, inl, inr, arith,
}
use finvo.Prelude.Lists.{select, length}
use finvo.Prelude.Text.{Text, text_eq_refl}
use finvo.Prelude.Exec.{ok, err, final}
use finvo.Auth.Redis.{IsCountable, is_number, Redis, IsRedis, counter, text_number, number_or_0}
use finvo.Auth.Cache.{cache_get, cache_delete, cache_increment, cache_expire}
use finvo.Auth.Codes.{rate_limited}
use finvo.Auth.Login.{
  max_login_failures, login_lock_seconds, User, Site, Sites, login_failures_key, verify_password,
  is_account, logged_in, is_locked, too_many, login_locked, record_login_failure,
  clear_login_failures, login_found, login,
}

abbrev pub AllRefused : Site → User → List Text → Type 0
AllRefused site u [] = Unit
AllRefused site u (p ∷ ps) = (verify_password site u p ≡ false) × AllRefused site u ps

module _ {S : Type 0} (r : Redis S) (site : Site) (account_type account : Text) where
  -- `login` once for each password
  unfoldable pub login_all : List Text → Text → Option Text → Sites S → Sites S
  login_all [] timezone client_ip s = s
  login_all (p ∷ ps) timezone client_ip s =
      login_all ps timezone client_ip
        (final (login r site account_type account p timezone client_ip s))

module _ {S : Type 0} (r : Redis S) (value : S → Text → Option Text) (site : Site)
    (account_type account : Text) where
  -- the login of the user `u` for `password`, which leads from `s` to `s'` and returns `result`
  pub record IsLogin (password timezone : Text) (client_ip : Option Text) (s s' : Sites S)
      (result : User × Text) : Type 0 where
    pub user : User
    pub found : select (is_account account_type account) s.users ≡ user ∷ []
    pub verified : verify_password site user password ≡ true
    pub allowed :
        counter r value s.redis (login_failures_key account_type account) < max_login_failures
    pub returned :
        result ≡ (logged_in site timezone client_ip user, site.create_access_token user.uuid)
    pub cleared : counter r value s'.redis (login_failures_key account_type account) ≡ 0

module _ {S : Type 0} (r : Redis S) (value : S → Text → Option Text) (law : IsRedis r value) where
  login_locked_lem :
      (key : Text) (s : S) → login_locked r key s ≡ leb max_login_failures (counter r value s key)
  unfolding login_locked cache_get
  login_locked_lem key s = rw (law.get_value key s) (held (value s key))
    where
      held : (o : Option Text) → is_locked r o ≡ leb max_login_failures (text_number r o)
      held none = refl
      held (some raw) = number (r.int raw)
        where
          number : (o : Option ℕ) → too_many r o ≡ leb max_login_failures (number_or_0 o)
          number none = refl
          number (some n) = refl

  counter-record_login_failure :
      (key : Text) (s : S)
      → IsCountable r value s key
      → counter r value (record_login_failure r key true s) key ≡ suc (counter r value s key)
  unfolding record_login_failure cache_increment cache_expire
  counter-record_login_failure key s can =
      rw (law.incrby_count key s can) (elim (Bool-cases (suc (counter r value s key) == 1)) [
        | inl e ↦
            rw (e, law.expire_value key login_lock_seconds (r.incrby key 1 s).1 key (omega arith))
              (law.incrby_counter key s can)
        | inr e ↦ rw e (law.incrby_counter key s can)
      ])

  counter-clear_login_failures :
      (key : Text) (s : S) → counter r value (clear_login_failures r key s) key ≡ 0
  unfolding clear_login_failures cache_delete
  counter-clear_login_failures key s = rw (law.delete_value key s key, text_eq_refl key) refl

  module _ (site : Site) (account_type account : Text) where
    abbrev key : Text
    key = login_failures_key account_type account

    abbrev users_of : Sites S → List User
    users_of s = select (is_account account_type account) s.users

    -- a login that is not locked
    login_unlocked :
        (password timezone : Text) (client_ip : Option Text) (s : Sites S)
        → leb max_login_failures (counter r value s.redis key) ≡ false
        → login r site account_type account password timezone client_ip s
          ≡ login_found r site account_type account (users_of s) password timezone client_ip s
    unfolding login
    login_unlocked password timezone client_ip s h = rw (login_locked_lem key s.redis, h) refl

    abbrev failed : Sites S → Sites S
    failed s = record s { redis = record_login_failure r key true s.redis }

    login_fails :
        (u : User) (password timezone : Text) (client_ip : Option Text) (s : Sites S)
        → users_of s ≡ u ∷ []
        → verify_password site u password ≡ false
        → leb max_login_failures (counter r value s.redis key) ≡ false
        → final (login r site account_type account password timezone client_ip s) ≡ failed s
    login_fails u password timezone client_ip s one wrong unlocked =
        rw (login_unlocked password timezone client_ip s unlocked, one, wrong) refl

    login_refused :
        (password timezone : Text) (client_ip : Option Text) (s : Sites S)
        → leb max_login_failures (counter r value s.redis key) ≡ true
        → (login r site account_type account password timezone client_ip s).0 ≡ err rate_limited
    unfolding login
    login_refused password timezone client_ip s h = rw (login_locked_lem key s.redis, h) refl

    number-failed :
        (s : Sites S)
        → IsCountable r value s.redis key
        → is_number r (value (record_login_failure r key true s.redis) key) ≡ true
    unfolding record_login_failure cache_increment cache_expire
    number-failed s can =
        let n = law.incrby_number key s.redis can in
        rw (law.incrby_count key s.redis can)
          (elim (Bool-cases (suc (counter r value s.redis key) == 1)) [
            | inl e ↦
                rw
                  (
                    e,
                    law.expire_value key login_lock_seconds (r.incrby key 1 s.redis).1 key
                        (omega arith),
                  )
                  n
            | inr e ↦ rw e n
          ])

    -- After as many failed logins of the one user of an account as there are attempts left of the five,
    -- every login of the account is refused, with the right password too, on a server that behaves as
    -- documented, where the key of the account's failures holds a number or nothing. No key expires
    -- meanwhile.
    pub login-locks :
        (u : User) (ps : List Text) (password timezone : Text) (client_ip : Option Text)
        (s : Sites S)
        → select (is_account account_type account) s.users ≡ u ∷ []
        → AllRefused site u ps
        → is_number r (value s.redis (login_failures_key account_type account)) ≡ true
        → counter r value s.redis (login_failures_key account_type account) + length ps
          ≡ max_login_failures
        → (login r site account_type account password timezone client_ip
            (login_all r site account_type account ps timezone client_ip s)).0
          ≡ err rate_limited
    unfolding login_all
    login-locks u [] password timezone client_ip s one wrong num e =
        let locked : leb max_login_failures (counter r value s.redis key) ≡ true = ground arith in
        login_refused password timezone client_ip s locked
    login-locks u (p ∷ ps) password timezone client_ip s one wrong num e =
        let unlocked_yet : leb max_login_failures (counter r value s.redis key) ≡ false =
          ground arith in
        let can : IsCountable r value s.redis key = (num, ground arith) in
        let n = counter-record_login_failure key s.redis can in
        rw (login_fails u p timezone client_ip s one wrong.0 unlocked_yet) (
          login-locks u ps password timezone client_ip (failed s) one wrong.1 (number-failed s can)
            (omega (arith, n, e)))

    -- A login that returns was for the one user of the account, with the right password and fewer
    -- failures than lock the account; it returns this user, updated, with a token of the user, and
    -- leaves no failure counted, on a server that behaves as documented.
    login-IsLogin :
        (password timezone : Text) (client_ip : Option Text) (s : Sites S) (result : User × Text)
        → (login r site account_type account password timezone client_ip s).0 ≡ ok result
        → IsLogin r value site account_type account password timezone client_ip s
            (final (login r site account_type account password timezone client_ip s))
            result
    login-IsLogin password timezone client_ip s result e =
        elim (Bool-cases (leb max_login_failures (counter r value s.redis key))) [
          | inl locked ↦ let refused = login_refused password timezone client_ip s locked in cc
          | inr unlocked ↦
              let step = login_unlocked password timezone client_ip s unlocked in
              rw step (go (users_of s) refl (ground arith) (rw step at e))
        ]
      where
        go :
            (us : List User)
            → users_of s ≡ us
            → counter r value s.redis key < max_login_failures
            → (login_found r site account_type account us password timezone client_ip s).0
              ≡ ok result
            → IsLogin r value site account_type account password timezone client_ip s
                (final (login_found r site account_type account us password timezone client_ip s))
                result
        go [] f l h = cc
        go (u ∷ []) f l h = elim (Bool-cases (verify_password site u password)) [
          | inl right ↦ rw right record {
            user = u;
            found = f;
            verified = right;
            allowed = l;
            returned = let h' = rw right at h in cc;
            cleared = counter-clear_login_failures key s.redis;
          }
          | inr wrong ↦ let h' = rw wrong at h in cc
        ]
        go (u ∷ v ∷ us) f l h = cc
