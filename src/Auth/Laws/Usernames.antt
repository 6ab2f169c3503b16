-- ===== src/Auth/Laws/Usernames.antt =====
-- The length of a username (`_generate_username` of server/app/services/auth_service.py).
use mathlib.Core.List.{reverse, reverse_aux}
use finvo.Prelude.{
  ℕ, zero, suc, ◌+◌, ◌-◌, ◌≤◌, ◌≡◌, [], ◌∷◌, ◌++◌, arith, ltb, Bool-cases, inl, inr,
}
use finvo.Prelude.Lists.{length}
use finvo.Prelude.Text.{Text}
use finvo.Auth.Username.{
  base_of, generate_username, lstrip_underscores, max_len, or_generic, rstrip_underscores,
  suffix_len, take,
}

length-append : (s t : Text) → length (s ++ t) ≡ length s + length t
length-append [] t = omega arith
length-append (c ∷ s) t = omega (arith, length-append s t)

length-take : (n : ℕ) (t : Text) → length (take n t) ≤ n
unfolding take
length-take zero t = omega arith
length-take (suc n) [] = omega arith
length-take (suc n) (c ∷ t) = omega (arith, length-take n t)

length-lstrip : (t : Text) → length (lstrip_underscores t) ≤ length t
unfolding lstrip_underscores
length-lstrip [] = omega arith
length-lstrip (c ∷ t) = ground (arith, length-lstrip t)

length-reverse : (t : Text) → length (reverse t) ≡ length t
length-reverse t = omega (arith, length-onto t [])
  where
    length-onto : (s t : Text) → length (reverse_aux s t) ≡ length s + length t
    length-onto [] t = omega arith
    length-onto (c ∷ s) t = omega (arith, length-onto s (c ∷ t))

length-rstrip : (t : Text) → length (rstrip_underscores t) ≤ length t
unfolding rstrip_underscores
length-rstrip t = omega (
  arith,
  length-reverse (lstrip_underscores (reverse t)),
  length-lstrip (reverse t),
  length-reverse t,
)

length-or_generic :
    (t : Text) (n : ℕ)
    → length t ≤ n
    → 4 ≤ n
    → (2 ≤ length (or_generic t)) × (length (or_generic t) ≤ n)
length-or_generic t n h k = elim (Bool-cases (ltb (length t) 2)) [
  | inl short ↦ rw short (omega arith, omega arith)
  | inr long ↦ rw long (ground arith, h)
]

-- A username has 7 to 30 characters, whatever the account is.
generate_username-length :
    (suffix account account_type : Text)
    → length suffix ≡ suffix_len - 1
    → (7 ≤ length (generate_username suffix account account_type))
      × (length (generate_username suffix account account_type) ≤ max_len)
unfolding generate_username
generate_username-length suffix account account_type h =
    let cut = take (max_len - suffix_len) (base_of account_type account) in
    let short = length-take (max_len - suffix_len) (base_of account_type account) in
    let both =
      length-or_generic (rstrip_underscores cut) 25 (omega (arith, length-rstrip cut, short))
        (omega arith) in
    let sum = length-append (or_generic (rstrip_underscores cut)) (b'_' ∷ suffix) in
    (omega (arith, both.0, sum, h), omega (arith, both.1, sum, h))
