-- ===== src/Auth/Laws/Refines.antt =====
-- The abstract view of the verification of codes: an account has no code, or a code with the number of
-- wrong guesses so far.
use finvo.Prelude.{
  ◌<◌, ℕ, suc, ◌≡◌, refl, Bool, true, false, Option, none, some, List, [], ◌∷◌, leb, if◌then◌else◌,
  Bool-cases, Option-cases, inl, inr, arith,
}
use finvo.Prelude.Text.{Text}
use finvo.Prelude.Exec.{Outcome, ok, err}
use finvo.Auth.Redis.{is_number, Redis, IsRedis, counter}
use finvo.Auth.Codes.{
  AuthError, concluded, max_attempts, code_key, attempts_key, matches, void_code,
  record_failed_attempt, verify_code,
}
use finvo.Auth.Laws.Codes.{
  IsOpen, countable, counter-record_failed_attempt, record_failed_attempt_code, value-void_code,
  verify_code_lem, void_code-IsOpen, record_failed_attempt-IsOpen,
}

abbrev pub Lock : Type 0
Lock = Option (Text × ℕ)

-- a wrong guess: the fifth one takes the code away
abbrev pub missed : Text → ℕ → Lock
missed c n = if leb max_attempts (suc n) then none else some (c, suc n)

-- what a comparison leaves of the code `c`; one that raises leaves everything
abbrev pub compared : Text → ℕ → Outcome AuthError Bool → Outcome AuthError Bool × Lock
compared c n (ok true) = (ok true, none)
compared c n (ok false) = (ok false, missed c n)
compared c n (err e) = (err e, some (c, n))

-- one guess
abbrev pub guess : Text → Lock → Outcome AuthError Bool × Lock
guess g none = (ok false, none)
guess g (some (c, n)) = compared c n (matches (some c) g)

-- the answers to guesses, one after the other
unfoldable pub guesses : List Text → Lock → List (Outcome AuthError Bool)
guesses [] l = []
guesses (g ∷ gs) l = (guess g l).0 ∷ guesses gs (guess g l).1

abbrev pub lock_of : Option Text → ℕ → Lock
lock_of none n = none
lock_of (some c) n = some (c, n)

module _ {S : Type 0} (r : Redis S) where
  unfoldable pub answers : Text → List Text → S → List (Outcome AuthError Bool)
  answers a [] s = []
  answers a (g ∷ gs) s = (verify_code r a g s).0 ∷ answers a gs (verify_code r a g s).1

  -- what the keys of an account stand for
  abbrev pub lock : (S → Text → Option Text) → Text → S → Lock
  lock value a s = lock_of (value s (code_key a)) (counter r value s (attempts_key a))

module _ {S : Type 0} (r : Redis S) (value : S → Text → Option Text) (law : IsRedis r value) where
  lock-void_code : (a : Text) (s : S) → lock r value a (void_code r a s) ≡ none
  lock-void_code a s = rw (value-void_code r value law a s) refl

  lock-record_none :
      (a : Text) (s : S)
      → IsOpen r value law a s
      → value s (code_key a) ≡ none
      → lock r value a (record_failed_attempt r a s) ≡ none
  lock-record_none a s o h =
      let code = record_failed_attempt_code r value law a s (countable r value law a s o) in
      let gone : value (record_failed_attempt r a s) (code_key a) ≡ none =
        ground (arith, code, h) in
      rw gone refl

  lock-record_some :
      (a c : Text) (s : S)
      → IsOpen r value law a s
      → value s (code_key a) ≡ some c
      → lock r value a (record_failed_attempt r a s) ≡ missed c (counter r value s (attempts_key a))
  lock-record_some a c s o h =
      let can = countable r value law a s o in
      let code = record_failed_attempt_code r value law a s can in
      elim (Bool-cases (leb max_attempts (suc (counter r value s (attempts_key a))))) [
        | inl last ↦ rw (code, last) refl
        | inr more ↦ rw (code, counter-record_failed_attempt r value law a s can more, more, h) refl
      ]

  -- the machine's answer and its next state, and the attempts stay below five
  abbrev Follows : Text → S → Outcome AuthError Bool × S → Outcome AuthError Bool × Lock → Type 0
  Follows a s x y = (x.0 ≡ y.0) × ((lock r value a x.1 ≡ y.1) × IsOpen r value law a x.1)

  concluded-void :
      (a : Text) (s : S)
      → IsOpen r value law a s
      → value s (code_key a) ≡ none
      → Follows a s (concluded r a (ok false) s) (ok false, none)
  concluded-void a s o h =
      (refl, (lock-record_none a s o h, record_failed_attempt-IsOpen r value law a s o))

  concluded-compared :
      (a c : Text) (s : S)
      → IsOpen r value law a s
      → value s (code_key a) ≡ some c
      → (x : Outcome AuthError Bool)
      → Follows a s (concluded r a x s) (compared c (counter r value s (attempts_key a)) x)
  concluded-compared a c s o h (ok true) =
      (refl, (lock-void_code a s, void_code-IsOpen r value law a s))
  concluded-compared a c s o h (ok false) =
      (refl, (lock-record_some a c s o h, record_failed_attempt-IsOpen r value law a s o))
  concluded-compared a c s o h (err e) = (refl, (rw h refl, o))

  verify_code-guess :
      (a g : Text) (s : S)
      → IsOpen r value law a s
      → Follows a s (verify_code r a g s) (guess g (lock r value a s))
  verify_code-guess a g s o =
      rw (verify_code_lem r value law a g s) (elim (Option-cases (value s (code_key a))) [
        | inl void ↦ rw void (concluded-void a s o void)
        | inr (c, there) ↦ rw there (concluded-compared a c s o there (matches (some c) g))
      ])

  -- The verification implements the machine: on a server that behaves as documented, the answers to
  -- any guesses for an account are those of a code that is taken away when it is guessed or after
  -- five wrong guesses; a guess with other characters than ASCII at a code that is not empty raises
  -- and is not counted. The attempts that the server counts are a number below five, nothing is sent
  -- and no key expires meanwhile.
  pub answers-guesses :
      (a : Text) (gs : List Text) (s : S)
      → is_number r (value s (attempts_key a)) ≡ true
      → counter r value s (attempts_key a) < max_attempts
      → answers r a gs s ≡ guesses gs (lock r value a s)
  unfolding answers guesses
  answers-guesses a [] s num few = refl
  answers-guesses a (g ∷ gs) s num few =
      let (same, (next, still)) = verify_code-guess a g s (num, few) in
      let rest = answers-guesses a gs (verify_code r a g s).1 still.0 still.1 in
      rw (same, rest, next) refl
