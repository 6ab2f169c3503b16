-- ===== src/Auth/Tests.antt =====
-- A server that keeps its keys in a function, on which the properties run.
use finvo.Prelude.{
  arith, ◌&&◌, suc, ◌≡◌, refl, ap, Bool, true, false, Option, none, some, [], ◌∷◌, if◌then◌else◌,
}
use finvo.Prelude.Lists.{length, select}
use finvo.Prelude.Text.{Text, codes, text_eq, text_eq_refl, lower, strip}
use finvo.Prelude.Exec.{ok, err, final}
use finvo.Auth.Redis.{Redis, IsRedis, counter}
use finvo.Auth.Codes.{
  is_ascii, type_error, code_key, attempts_key, rate_limited, email_registered, sms_sender,
  find_sender, send_code, verify_code,
}
use finvo.Auth.Login.{User, Site, Sites, verify_password, is_account, logged_in, login}
use finvo.Auth.Username.{generate_username}
use finvo.Auth.Register.{Registrar, Registry, new_user, register}
use finvo.Auth.Laws.Register.{IsRegistered, register-once}
use finvo.Auth.Laws.Refines.{answers, guesses, lock, answers-guesses}
use finvo.Auth.Laws.Sending.{send_code-verify_code}
use finvo.Auth.Laws.Login.{AllRefused, login_all, login-locks}

-- what the keys hold, a number in tally marks
abbrev Store : Type 0
Store = Text → Option Text

abbrev put : Text → Option Text → Store → Store
put k v s j = if text_eq k j then v else s j

abbrev marks : Option Text → Text
marks none = b'1' ∷ []
marks (some t) = b'1' ∷ t

abbrev nx : Option Text → Text → Text → Store → Option Bool × Store
nx none k v s = (some true, put k (some v) s)
nx (some t) k v s = (some false, s)

abbrev server : Redis Store
server = record {
  get = λ k s. some (s k);
  setex = λ k ttl v s. (true, put k (some v) s);
  set_nx = λ k v ttl s. nx (s k) k v s;
  delete = λ k s. (some true, put k none s);
  incrby = λ k n s. (some (length (marks (s k))), put k (some (marks (s k))) s);
  expire = λ k ttl s. (some true, s);
  int = λ t. some (length t);
}

abbrev value : Store → Text → Option Text
value s k = s k

length-marks : (o : Option Text) → length (marks o) ≡ suc (counter server (λ s k. o) (λ k. none) [])
length-marks none = refl
length-marks (some t) = refl

server-IsRedis : IsRedis server value
server-IsRedis = record {
  get_value = λ k s. refl;
  setex_done = λ k ttl v s p. refl;
  setex_value = λ k ttl v s j p. refl;
  nx_fresh = λ k v ttl s p h. rw h refl;
  nx_fresh_value = λ k v ttl s j p h. rw h refl;
  nx_held = λ k v ttl s t p h. rw h refl;
  nx_held_value = λ k v ttl s t j p h. rw h refl;
  delete_value = λ k s j. refl;
  incrby_count = λ k s c. ap some (length-marks (s k));
  incrby_counter = λ k s c. rw (text_eq_refl k) (length-marks (s k));
  incrby_number = λ k s c. rw (text_eq_refl k) refl;
  incrby_other = λ k s j h. rw h refl;
  expire_value = λ k ttl s j p. refl;
}

abbrev empty : Store
empty k = none

abbrev phone : Text
phone = codes "555"

abbrev code : Text
code = codes "042137"

-- a guess with the letter é
abbrev strange : Text
strange = 233 ∷ []

abbrev wrong : Text
wrong = codes "000000"

abbrev sent : Store
sent = final (send_code server (codes "mobile") phone code empty)

sent_lem : (send_code server (codes "mobile") phone code empty).0 ≡ ok true
unfolding send_code text_eq
sent_lem = refl

sent-code : value sent (code_key phone) ≡ some code
unfolding send_code text_eq
sent-code = refl

no_attempts : counter server value sent (attempts_key phone) ≡ 0
unfolding send_code text_eq attempts_key
no_attempts = refl

-- A code is accepted after a wrong guess and one that raises, and no second time.
guessed :
    guesses (wrong ∷ strange ∷ code ∷ code ∷ []) (some (code, 0))
    ≡ ok false ∷ err type_error ∷ ok true ∷ ok false ∷ []
unfolding guesses text_eq is_ascii
guessed = refl

answers-guesses_example :
    answers server phone (wrong ∷ strange ∷ code ∷ code ∷ []) sent
    ≡ guesses (wrong ∷ strange ∷ code ∷ code ∷ []) (lock server value phone sent)
unfolding send_code text_eq attempts_key
answers-guesses_example =
    answers-guesses server value server-IsRedis phone (wrong ∷ strange ∷ code ∷ code ∷ []) sent refl
      (omega arith)

accepted : (verify_code server phone code sent).0 ≡ ok true
unfolding send_code verify_code text_eq is_ascii
accepted = refl

send_code-verify_code_example :
    (verify_code server phone wrong (final (send_code server (codes "mobile") phone code empty))).0
    ≡ (if is_ascii code && is_ascii wrong then ok (text_eq code wrong) else err type_error)
send_code-verify_code_example =
    send_code-verify_code server value server-IsRedis (codes "mobile") phone b'0' (codes "42137")
      wrong empty sent_lem

mobile_sender : find_sender (codes "mobile") ≡ some sms_sender
unfolding find_sender text_eq
mobile_sender = refl

-- the hash of a password is the password itself
abbrev site : Site
site = record {
  checkpw = λ p h. some (text_eq p h);
  now = 100;
  create_access_token = λ u. codes "token";
}

abbrev mobile : Text
mobile = codes "mobile"

abbrev bob : User
bob = record {
  uuid = 7;
  email = none;
  mobile = some phone;
  password = code;
  timezone = codes "UTC";
  last_login_ip = none;
  last_login_at = 0;
}

abbrev before : Sites Store
before = record { users = bob ∷ []; redis = empty }

found_bob : select (is_account mobile phone) before.users ≡ bob ∷ []
unfolding select is_account text_eq
found_bob = refl

wrong_password : verify_password site bob wrong ≡ false
unfolding verify_password text_eq
wrong_password = refl

five_refused : AllRefused site bob (wrong ∷ wrong ∷ wrong ∷ wrong ∷ wrong ∷ [])
five_refused =
    (wrong_password, (wrong_password, (wrong_password, (wrong_password, (wrong_password, tt)))))

login-locks_example :
    (login server site mobile phone code (codes "UTC") none (
      login_all server site mobile phone
        (wrong ∷ wrong ∷ wrong ∷ wrong ∷ wrong ∷ [])
        (codes "UTC")
        none
        before)).0
    ≡ err rate_limited
login-locks_example =
    login-locks server value server-IsRedis site mobile phone bob
      (wrong ∷ wrong ∷ wrong ∷ wrong ∷ wrong ∷ []) code (codes "UTC") none before found_bob
      five_refused refl refl

bob_enters :
    (login server site mobile phone code (codes "CET") none before).0
    ≡ ok (logged_in site (codes "CET") none bob, codes "token")
unfolding login select text_eq
bob_enters = refl

abbrev registrar : Registrar
registrar = record {
  registration_open = true;
  mock_email_provider = true;
  mock_sms_provider = false;
  hash_password = λ t. t;
  new_uuid = 4;
  suffix = codes "a3x7";
  now = 100;
  raced = false;
}

abbrev registry : Registry Store
registry = record {
  users = [];
  usernames = λ k. none;
  settings = record { financial = λ k. none; user = λ k. none; transactions = [] };
  redis = λ k. none;
}

abbrev anna : User
anna =
    new_user registrar (codes "email") (codes "anna@x.org") (codes "secret") (codes "Asia/Tokyo")
      none

registered_anna :
    (register server registrar
      (codes "email")
      (codes "secret")
      (codes "Asia/Tokyo")
      none
      none
      (codes " Anna@X.org")
      (codes "123456")
      registry).0
    ≡ ok anna
unfolding register select text_eq lower strip
registered_anna = refl

register-once_example :
    let s' = final (
      register server registrar
        (codes "email")
        (codes "secret")
        (codes "Asia/Tokyo")
        none
        none
        (codes " Anna@X.org")
        (codes "123456")
        registry) in
    IsRegistered (codes "email") (codes " Anna@X.org") anna s'
    × (register server registrar
          (codes "email")
          (codes "other")
          (codes "Asia/Tokyo")
          none
          none
          (codes "anna@x.org")
          (codes "")
          s'
        ≡ (err email_registered, s'))
unfolding text_eq lower strip
register-once_example =
    register-once server registrar registrar (codes "email") (codes "secret") (codes "other")
      (codes "Asia/Tokyo") (codes "Asia/Tokyo") none none none none (codes " Anna@X.org")
      (codes "anna@x.org") (codes "123456") (codes "") registry anna refl refl registered_anna

username_of_address :
    generate_username (codes "a3x7") (codes "john..doe+x@gmail.com") (codes "email")
    ≡ codes "john_doe_x_a3x7"
unfolding generate_username text_eq select
username_of_address = refl
