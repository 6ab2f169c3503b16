-- ===== src/Auth/Cache.antt =====
-- server/app/core/cache.py: the methods of CacheManager on values that are not serialized, which turn
-- a failure of the server into a result.
use finvo.Prelude.{ℕ, Bool, false, Option, none, some}
use finvo.Prelude.Text.{Text}
use finvo.Auth.Redis.{Redis}

abbrev pub or_nothing : Option (Option Text) → Option Text
or_nothing none = none
or_nothing (some o) = o

-- `bool(result)`, and False after a failure
abbrev pub or_false : Option Bool → Bool
or_false none = false
or_false (some b) = b

module _ {S : Type 0} (r : Redis S) where
  unfoldable pub cache_get : Text → S → Option Text
  cache_get k s = or_nothing (r.get k s)

  unfoldable pub cache_set : Text → Text → ℕ → S → Bool × S
  cache_set k v ttl s = r.setex k ttl v s

  unfoldable pub cache_set_nx : Text → Text → ℕ → S → Bool × S
  cache_set_nx k v ttl s = let (result, s') = r.set_nx k v ttl s in (or_false result, s')

  unfoldable pub cache_delete : Text → S → Bool × S
  cache_delete k s = let (result, s') = r.delete k s in (or_false result, s')

  unfoldable pub cache_increment : Text → S → Option ℕ × S
  cache_increment k s = r.incrby k 1 s

  unfoldable pub cache_expire : Text → ℕ → S → Bool × S
  cache_expire k ttl s = let (result, s') = r.expire k ttl s in (or_false result, s')
