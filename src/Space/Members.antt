-- ===== src/Space/Members.antt =====
-- server/app/services/shared_space_service.py: joining and leaving a space, removing a member,
-- changing a role and handing the ownership over.
use finvo.Prelude.{
  ℕ, Bool, true, false, not, ◌&&◌, ◌||◌, Option, none, some, List, [], ◌∷◌, ◌++◌, ◌==◌, ltb,
  if◌then◌else◌,
}
use finvo.Prelude.Lists.{select, delete_where, update_where}
use finvo.Prelude.Text.{Text, strip, upper}
use finvo.Prelude.Exec.{pure, gets, or_raise, raise_if, modify, ◌>>=◌, ◌>>◌}
use finvo.Space.Model.{
  Role, owner, admin, member, MemberStatus, accepted, SharedSpace, SpaceMember, LeaveReason, left,
  removed, ownership_transferred, member_joined, member_left, member_not_found, invalid_code,
  already_member, owner_cannot_leave, use_leave, cannot_remove_owner, bad_role, own_role,
  cannot_change_owner, transfer_to_self, already_owner, not_accepted, Action, is_accepted, is_owner,
  is_active, scalar_one_or_none, scalar_one, has_id, has_key, has_code, collect_event,
}
use finvo.Space.Access.{verify_admin, verify_owner}
use finvo.Space.Service.{
  load_space, check_version, write_space, bumped, bump_space_version, get_space_detail,
}

-- the row of a member, whatever its status
unfoldable pub find_member : ℕ → ℕ → Action (Option SpaceMember)
find_member space_id user_uuid = do
  rows ← gets (λ s. select (has_key space_id user_uuid) s.members)
  scalar_one_or_none rows

-- a write to the loaded row of a member
abbrev pub write_member : ℕ → ℕ → (SpaceMember → SpaceMember) → Action (Unit {0})
write_member space_id user_uuid f =
    modify (λ s. record s { members = update_where (has_key space_id user_uuid) f s.members })

-- `invite_code_expires_at and invite_code_expires_at < now`
abbrev pub is_expired : SharedSpace → ℕ → Bool
is_expired space now = elim space.invite_code_expires_at [ none ↦ false | some t ↦ ltb t now ]

-- an unknown code, an inactive space and an expired code give one and the same error
abbrev pub usable : Option SharedSpace → ℕ → Option SharedSpace
usable none now = none
usable (some space) now =
    if not (is_active space.status) || is_expired space now then none else some space

-- the second half of `join_with_code`: accept the pending row, or add one
unfoldable pub accept_member : ℕ → ℕ → Option SpaceMember → Action (Unit {0})
accept_member space_id user_uuid none = modify (λ s. record s {
  members =
      s.members
      ++ record { space_id = space_id; user_uuid = user_uuid; role = member; status = accepted }
        ∷ [];
})
accept_member space_id user_uuid (some existing) = do
  raise_if (is_accepted existing.status) already_member
  write_member space_id user_uuid (λ m. record m { status = accepted })

unfoldable pub join_with_code : ℕ → Text → ℕ → Action (SharedSpace × Role)
unfolding find_member
join_with_code now code user_uuid = do
  rows ← gets (λ s. select (has_code (upper (strip code))) s.spaces)
  found ← scalar_one_or_none rows
  space ← or_raise (usable found now) invalid_code
  existing ← find_member space.id user_uuid
  accept_member space.id user_uuid existing
  detail ← get_space_detail space.id user_uuid
  collect_event (member_joined space.id space.name user_uuid)
  pure detail

-- `scalar_one_or_none() or ""` on the name of a space
abbrev pub name_of : List SharedSpace → Text
name_of [] = []
name_of (sp ∷ rest) = sp.name

-- the notification at the end of `leave_space` and `remove_member`
unfoldable pub notify_left : ℕ → ℕ → LeaveReason → Action (Unit {0})
notify_left space_id user_uuid reason = do
  rows ← gets (λ s. select (has_id space_id) s.spaces)
  scalar_one_or_none rows
  collect_event (member_left space_id (name_of rows) user_uuid reason)

unfoldable pub leave_space : ℕ → ℕ → Action Bool
unfolding find_member
leave_space space_id user_uuid = do
  found ← find_member space_id user_uuid
  m ← or_raise found member_not_found
  raise_if (is_owner m.role) owner_cannot_leave
  modify (λ s. record s { members = delete_where (has_key space_id user_uuid) s.members })
  bump_space_version space_id
  notify_left space_id user_uuid left
  pure true

unfoldable pub purge : Bool → ℕ → ℕ → Action (Unit {0})
purge purge_transactions space_id target =
    if purge_transactions
    then modify (λ s. record s {
      links = delete_where (λ l. l.space_id == space_id && l.added_by_user_uuid == target) s.links;
    })
    else pure tt

unfoldable pub remove_member : ℕ → ℕ → ℕ → Bool → Action Bool
unfolding find_member
remove_member space_id user_uuid target purge_transactions = do
  verify_admin space_id user_uuid
  raise_if (user_uuid == target) use_leave
  found ← find_member space_id target
  m ← or_raise found member_not_found
  raise_if (is_owner m.role) cannot_remove_owner
  purge purge_transactions space_id target
  modify (λ s. record s { members = delete_where (has_key space_id target) s.members })
  bump_space_version space_id
  notify_left space_id target removed
  pure true

-- `new_role in ("ADMIN", "MEMBER")`
abbrev pub is_assignable : Role → Bool
is_assignable admin = true
is_assignable member = true
is_assignable _ = false

unfoldable pub update_member_role : ℕ → ℕ → ℕ → Role → Action (ℕ × Role × MemberStatus)
unfolding find_member
update_member_role space_id user_uuid target new_role = do
  verify_owner space_id user_uuid
  raise_if (not (is_assignable new_role)) bad_role
  raise_if (user_uuid == target) own_role
  found ← find_member space_id target
  m ← or_raise found member_not_found
  raise_if (is_owner m.role) cannot_change_owner
  write_member space_id target (λ r. record r { role = new_role })
  bump_space_version space_id
  pure (m.user_uuid, new_role, m.status)

-- the end of `transfer_ownership`, once every check has passed
unfoldable pub hand_over : ℕ → ℕ → ℕ → SharedSpace → Action SharedSpace
hand_over space_id user_uuid target space = do
  former_rows ← gets (λ s. select (has_key space_id user_uuid) s.members)
  scalar_one former_rows
  write_member space_id user_uuid (λ r. record r { role = member })
  write_member space_id target (λ r. record r { role = owner })
  write_space space_id bumped
  collect_event (member_left space_id space.name user_uuid ownership_transferred)
  pure (bumped space)

-- The result is the space that is shown to the former owner, now a plain member.
unfoldable pub transfer_ownership : ℕ → ℕ → ℕ → Option ℕ → Action SharedSpace
unfolding find_member
transfer_ownership space_id user_uuid target expected_version = do
  verify_owner space_id user_uuid
  raise_if (user_uuid == target) transfer_to_self
  found ← find_member space_id target
  t ← or_raise found member_not_found
  raise_if (is_owner t.role) already_owner
  raise_if (not (is_accepted t.status)) not_accepted
  space ← load_space space_id
  check_version space expected_version
  hand_over space_id user_uuid target space
