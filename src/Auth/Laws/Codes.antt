-- ===== src/Auth/Laws/Codes.antt =====
-- The verification of codes: what it leaves in the cache.
use finvo.Prelude.{
  ℕ, suc, ◌<◌, ◌≡◌, refl, true, false, Option, none, some, ◌==◌, leb, if◌then◌else◌, Bool-cases,
  inl, inr, arith,
}
use finvo.Prelude.Text.{Text, text_eq_refl}
use finvo.Auth.Redis.{IsCountable, is_number, Redis, IsRedis, counter}
use finvo.Auth.Cache.{cache_get, cache_delete, cache_increment, cache_expire}
use finvo.Auth.Codes.{
  concluded, max_attempts, expire_seconds, code_key, attempts_key, void_code, after_count,
  record_failed_attempt, matches, verify_code,
}
use finvo.Auth.Laws.Keys.{code_key_apart}

module _ {S : Type 0} (r : Redis S) (value : S → Text → Option Text) (law : IsRedis r value) where
  -- a verification, by what the code's key holds
  pub verify_code_lem :
      (a c : Text) (s : S)
      → verify_code r a c s ≡ concluded r a (matches (value s (code_key a)) c) s
  unfolding verify_code cache_get
  verify_code_lem a c s = rw (law.get_value (code_key a) s) refl

  pub value-void_code : (a : Text) (s : S) → value (void_code r a s) (code_key a) ≡ none
  unfolding cache_delete
  value-void_code a s =
      let s' = (r.delete (code_key a) s).1 in
      rw
        (
          law.delete_value (attempts_key a) s' (code_key a),
          (code_key_apart a a).0,
          law.delete_value (code_key a) s (code_key a),
          text_eq_refl (code_key a),
        )
        refl

  attempts-void_code : (a : Text) (s : S) → value (void_code r a s) (attempts_key a) ≡ none
  unfolding cache_delete
  attempts-void_code a s =
      let s' = (r.delete (code_key a) s).1 in
      rw (law.delete_value (attempts_key a) s' (attempts_key a), text_eq_refl (attempts_key a)) refl

  after_count_code :
      (a : Text) (n : ℕ) (s : S)
      → value (after_count r a (some n) s) (code_key a)
        ≡ (if leb max_attempts n then none else value s (code_key a))
  unfolding cache_expire
  after_count_code a n s = elim (Bool-cases (leb max_attempts n)) [
    | inl e ↦ rw e (value-void_code a _)
    | inr e ↦ elim (Bool-cases (n == 1)) [
      | inl f ↦
          rw (e, f) (law.expire_value (attempts_key a) expire_seconds s (code_key a) (omega arith))
      | inr f ↦ rw (e, f) refl
    ]
  ]

  after_count_attempts :
      (a : Text) (n : ℕ) (s : S)
      → leb max_attempts n ≡ false
      → value (after_count r a (some n) s) (attempts_key a) ≡ value s (attempts_key a)
  unfolding cache_expire
  after_count_attempts a n s e = elim (Bool-cases (n == 1)) [
    | inl f ↦
        rw (e, f)
          (law.expire_value (attempts_key a) expire_seconds s (attempts_key a) (omega arith))
    | inr f ↦ rw (e, f) refl
  ]

  pub record_failed_attempt_code :
      (a : Text) (s : S)
      → IsCountable r value s (attempts_key a)
      → value (record_failed_attempt r a s) (code_key a) ≡ (
          if leb max_attempts (suc (counter r value s (attempts_key a)))
          then none
          else value s (code_key a))
  unfolding record_failed_attempt cache_increment
  record_failed_attempt_code a s can =
      let key = attempts_key a in
      rw
        (
          law.incrby_count key s can,
          after_count_code a (suc (counter r value s key)) (r.incrby key 1 s).1,
          law.incrby_other key s (code_key a) (code_key_apart a a).0,
        )
        refl

  pub counter-record_failed_attempt :
      (a : Text) (s : S)
      → IsCountable r value s (attempts_key a)
      → leb max_attempts (suc (counter r value s (attempts_key a))) ≡ false
      → counter r value (record_failed_attempt r a s) (attempts_key a)
        ≡ suc (counter r value s (attempts_key a))
  unfolding record_failed_attempt cache_increment
  counter-record_failed_attempt a s can e =
      let key = attempts_key a in
      rw
        (
          law.incrby_count key s can,
          after_count_attempts a (suc (counter r value s key)) (r.incrby key 1 s).1 e,
        )
        (law.incrby_counter key s can)

  -- The attempts of an account are a number below five.
  abbrev pub IsOpen : Text → S → Type 0
  IsOpen a s =
      (is_number r (value s (attempts_key a)) ≡ true)
      × (counter r value s (attempts_key a) < max_attempts)

  pub countable : (a : Text) (s : S) → IsOpen a s → IsCountable r value s (attempts_key a)
  countable a s h = (h.0, omega (arith, h.1))

  pub void_code-IsOpen : (a : Text) (s : S) → IsOpen a (void_code r a s)
  void_code-IsOpen a s = rw (attempts-void_code a s) (refl, omega arith)

  record_failed_attempt-attempts :
      (a : Text) (s : S)
      → IsOpen a s
      → leb max_attempts (suc (counter r value s (attempts_key a))) ≡ false
      → value (record_failed_attempt r a s) (attempts_key a)
        ≡ value (r.incrby (attempts_key a) 1 s).1 (attempts_key a)
  unfolding record_failed_attempt cache_increment
  record_failed_attempt-attempts a s h more =
      rw (law.incrby_count (attempts_key a) s (countable a s h)) (
        after_count_attempts a (suc (counter r value s (attempts_key a)))
          (r.incrby (attempts_key a) 1 s).1 more)

  record_failed_attempt-void :
      (a : Text) (s : S)
      → IsOpen a s
      → leb max_attempts (suc (counter r value s (attempts_key a))) ≡ true
      → value (record_failed_attempt r a s) (attempts_key a) ≡ none
  unfolding record_failed_attempt cache_increment
  record_failed_attempt-void a s h last =
      rw (law.incrby_count (attempts_key a) s (countable a s h), last) (attempts-void_code a _)

  pub record_failed_attempt-IsOpen :
      (a : Text) (s : S) → IsOpen a s → IsOpen a (record_failed_attempt r a s)
  record_failed_attempt-IsOpen a s h =
      let key = attempts_key a in
      elim (Bool-cases (leb max_attempts (suc (counter r value s key)))) [
        | inl last ↦ rw (record_failed_attempt-void a s h last) (refl, omega arith)
        | inr more ↦
            let can = countable a s h in
            let below : suc (counter r value s key) < max_attempts = ground arith in
            (
              rw (record_failed_attempt-attempts a s h more) (law.incrby_number key s can),
              rw (counter-record_failed_attempt a s can more) below,
            )
      ]
