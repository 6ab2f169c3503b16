-- ===== src/Space/Access.antt =====
-- server/app/services/shared_space_access.py: the role checks OWNER > ADMIN > member.
use finvo.Prelude.{ℕ, not, ◌&&◌}
use finvo.Prelude.Lists.{select}
use finvo.Prelude.Exec.{pure, gets, or_raise, raise_if, ◌>>=◌, ◌>>◌}
use finvo.Space.Model.{
  SpaceMember, not_a_member, need_admin, need_owner, Action, is_accepted, is_owner, is_admin,
  scalar_one_or_none, has_key,
}

unfoldable pub verify_membership : ℕ → ℕ → Action SpaceMember
verify_membership space_id user_uuid = do
  rows ← gets (λ s. select (λ m. has_key space_id user_uuid m && is_accepted m.status) s.members)
  found ← scalar_one_or_none rows
  or_raise found not_a_member

unfoldable pub verify_admin : ℕ → ℕ → Action SpaceMember
verify_admin space_id user_uuid = do
  member ← verify_membership space_id user_uuid
  raise_if (not (is_admin member.role)) need_admin
  pure member

unfoldable pub verify_owner : ℕ → ℕ → Action SpaceMember
verify_owner space_id user_uuid = do
  member ← verify_membership space_id user_uuid
  raise_if (not (is_owner member.role)) need_owner
  pure member
