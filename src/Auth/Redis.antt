-- ===== src/Auth/Redis.antt =====
-- The Redis server and its client, which server/app/core/cache.py calls, and Python's `int`. Neither
-- is part of the repository.
use finvo.Prelude.{
  ℕ, suc, ◌<◌, is_none, not, ◌≡◌, Bool, true, false, Option, none, some, if◌then◌else◌,
}
use finvo.Prelude.Text.{Text, text_eq}

-- The client's calls on a server with the states `S`. `none` is a RedisError or an OSError; for
-- `setex`, which returns nothing, it is `false`.
pub record Redis (S : Type 0) : Type 0 where
  pub get : Text → S → Option (Option Text)
  pub setex : Text → ℕ → Text → S → Bool × S
  pub set_nx : Text → Text → ℕ → S → Option Bool × S
  pub delete : Text → S → Option Bool × S
  pub incrby : Text → ℕ → S → Option ℕ × S
  pub expire : Text → ℕ → S → Option Bool × S
  pub int : Text → Option ℕ

-- the number that a key holds, 0 if there is none
abbrev pub number_or_0 : Option ℕ → ℕ
number_or_0 none = 0
number_or_0 (some n) = n

abbrev pub text_number : {S : Type 0} → Redis S → Option Text → ℕ
text_number r none = 0
text_number r (some t) = number_or_0 (r.int t)

abbrev pub counter : {S : Type 0} → Redis S → (S → Text → Option Text) → S → Text → ℕ
counter r value s k = text_number r (value s k)

-- The key holds a number, or nothing.
abbrev pub is_number : {S : Type 0} → Redis S → Option Text → Bool
is_number r none = true
is_number r (some t) = not (is_none (r.int t))

-- the largest number that a key holds
abbrev pub max_number : ℕ
max_number = 0x7fff_ffff_ffff_ffff

-- what INCRBY needs of a key to succeed
abbrev pub IsCountable : {S : Type 0} → Redis S → (S → Text → Option Text) → S → Text → Type 0
IsCountable r value s k = (is_number r (value s k) ≡ true) × (counter r value s k < max_number)

-- The documented behaviour of the commands on a server that answers, where `value` is what a key
-- holds.
pub record IsRedis {S : Type 0} (r : Redis S) (value : S → Text → Option Text) : Type 0 where
  pub get_value : (k : Text) (s : S) → r.get k s ≡ some (value s k)
  pub setex_done : (k : Text) (ttl : ℕ) (v : Text) (s : S) → 0 < ttl → (r.setex k ttl v s).0 ≡ true
  pub setex_value :
      (k : Text) (ttl : ℕ) (v : Text) (s : S) (j : Text)
      → 0 < ttl
      → value (r.setex k ttl v s).1 j ≡ (if text_eq k j then some v else value s j)
  pub nx_fresh :
      (k v : Text) (ttl : ℕ) (s : S)
      → 0 < ttl
      → value s k ≡ none
      → (r.set_nx k v ttl s).0 ≡ some true
  pub nx_fresh_value :
      (k v : Text) (ttl : ℕ) (s : S) (j : Text)
      → 0 < ttl
      → value s k ≡ none
      → value (r.set_nx k v ttl s).1 j ≡ (if text_eq k j then some v else value s j)
  pub nx_held :
      (k v : Text) (ttl : ℕ) (s : S) (t : Text)
      → 0 < ttl
      → value s k ≡ some t
      → (r.set_nx k v ttl s).0 ≡ some false
  pub nx_held_value :
      (k v : Text) (ttl : ℕ) (s : S) (t j : Text)
      → 0 < ttl
      → value s k ≡ some t
      → value (r.set_nx k v ttl s).1 j ≡ value s j
  pub delete_value :
      (k : Text) (s : S) (j : Text)
      → value (r.delete k s).1 j ≡ (if text_eq k j then none else value s j)
  pub incrby_count :
      (k : Text) (s : S)
      → IsCountable r value s k
      → (r.incrby k 1 s).0 ≡ some (suc (counter r value s k))
  pub incrby_counter :
      (k : Text) (s : S)
      → IsCountable r value s k
      → counter r value (r.incrby k 1 s).1 k ≡ suc (counter r value s k)
  pub incrby_number :
      (k : Text) (s : S) → IsCountable r value s k → is_number r (value (r.incrby k 1 s).1 k) ≡ true
  pub incrby_other :
      (k : Text) (s : S) (j : Text) → text_eq k j ≡ false → value (r.incrby k 1 s).1 j ≡ value s j
  pub expire_value :
      (k : Text) (ttl : ℕ) (s : S) (j : Text) → 0 < ttl → value (r.expire k ttl s).1 j ≡ value s j
