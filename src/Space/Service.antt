-- ===== src/Space/Service.antt =====
-- server/app/services/shared_space_service.py: create, read, update and delete a space, its version
-- check and its invite code. What comes from outside (a fresh identifier, the clock, the random
-- code, the outcome of the settings query) is an argument; logging and the rendering of the
-- response are left out.
use finvo.Prelude.{
  ℕ, ◌+◌, ◌*◌, Bool, true, not, ◌&&◌, Option, none, some, List, [], ◌∷◌, ◌++◌, ◌==◌,
}
use finvo.Prelude.Lists.{select, delete_where, update_where}
use finvo.Prelude.Text.{Text, codes, or_text, upper}
use finvo.Prelude.Exec.{pure, gets, or_raise, raise_if, modify, ◌>>=◌, ◌>>◌}
use finvo.Space.Model.{
  Role, owner, accepted, SpaceStatus, active, SharedSpace, SpaceMember, Session, space_not_found,
  version_conflict, bad_status, duplicate_key, Action, is_accepted, scalar_one_or_none, has_id,
  has_key, is_nil,
}
use finvo.Space.Access.{verify_membership, verify_admin, verify_owner}

-- PROJECT_DEFAULT_CURRENCY
abbrev pub default_currency : Text
default_currency = codes "CNY"

-- The base currency that `create_space` stores. The query for the creator's primary currency
-- raised (`none`), or found a value or NULL.
unfoldable pub space_currency : Option (Option Text) → Text
space_currency none = upper default_currency
space_currency (some row) = upper (or_text row default_currency)

-- A flush of an identifier that is taken breaks the primary key.
unfoldable pub create_space : ℕ → Option (Option Text) → ℕ → Text → Option Text → Action SharedSpace
create_space new_id settings user_uuid name description = do
  let space : SharedSpace = record {
    id = new_id;
    name = name;
    creator_uuid = user_uuid;
    status = active;
    description = description;
    base_currency = some (space_currency settings);
    invite_code = none;
    invite_code_expires_at = none;
    version = 0;
  }
  let first : SpaceMember = record {
    space_id = new_id;
    user_uuid = user_uuid;
    role = owner;
    status = accepted;
  }
  taken ← gets (λ s. select (has_id new_id) s.spaces)
  raise_if (not (is_nil taken)) duplicate_key
  modify (λ s. record s { spaces = s.spaces ++ space ∷ [] })
  modify (λ s. record s { members = s.members ++ first ∷ [] })
  pure space

-- `_load_space`
unfoldable pub load_space : ℕ → Action SharedSpace
load_space space_id = do
  rows ← gets (λ s. select (has_id space_id) s.spaces)
  found ← scalar_one_or_none rows
  or_raise found space_not_found

-- `_check_version`
unfoldable pub check_version : SharedSpace → Option ℕ → Action (Unit {0})
check_version space none = pure tt
check_version space (some expected) = raise_if (not (space.version == expected)) version_conflict

-- a write to the loaded row of a space
abbrev pub write_space : ℕ → (SharedSpace → SharedSpace) → Action (Unit {0})
write_space space_id f =
    modify (λ s. record s { spaces = update_where (has_id space_id) f s.spaces })

-- `space.version += 1`
abbrev pub bumped : SharedSpace → SharedSpace
bumped space = record space { version = space.version + 1 }

-- `_bump_space_version`
unfoldable pub bump_space_version : ℕ → Action (Unit {0})
unfolding load_space
bump_space_version space_id = do load_space space_id; write_space space_id bumped

-- the rows of `select(SharedSpace).join(SpaceMember)` for one accepted membership
abbrev pub joined_spaces : ℕ → ℕ → Session → List SharedSpace
joined_spaces space_id user_uuid s =
    select
      (λ sp.
        has_id space_id sp
        && not (is_nil (select (λ m. has_key sp.id user_uuid m && is_accepted m.status) s.members)))
      s.spaces

-- The space and the reader's role in it.
unfoldable pub get_space_detail : ℕ → ℕ → Action (SharedSpace × Role)
get_space_detail space_id user_uuid = do
  member ← verify_membership space_id user_uuid
  rows ← gets (joined_spaces space_id user_uuid)
  found ← scalar_one_or_none rows
  space ← or_raise found space_not_found
  pure (space, member.role)

-- the `status` argument: the enumeration, or a text that `SpaceStatus(...)` may reject
pub data StatusArg : Type 0 where
  member_of_enum : SpaceStatus → StatusArg
  valid_text : SpaceStatus → StatusArg
  other_text : Text → StatusArg

abbrev pub status_value : StatusArg → Option SpaceStatus
status_value (member_of_enum v) = some v
status_value (valid_text v) = some v
status_value (other_text _) = none

-- `if x is not None: ...`
abbrev pub when_given : {A : Type 0} → Option A → (A → Action (Unit {0})) → Action (Unit {0})
when_given none f = pure tt
when_given (some a) f = f a

abbrev pub set_name : ℕ → Option Text → Action (Unit {0})
set_name space_id name = when_given name (λ v. write_space space_id (λ sp. record sp { name = v }))

abbrev pub set_description : ℕ → Option Text → Action (Unit {0})
set_description space_id description =
    when_given description (λ v. write_space space_id (λ sp. record sp { description = some v }))

abbrev pub set_status : ℕ → Option StatusArg → Action (Unit {0})
set_status space_id status = when_given status (λ arg. do
  v ← or_raise (status_value arg) bad_status
  write_space space_id (λ sp. record sp { status = v }))

-- The rendered response is left out: the result is empty.
unfoldable pub update_space :
    ℕ → ℕ → Option Text → Option Text → Option StatusArg → Option ℕ → Action (Unit {0})
update_space space_id user_uuid name description status expected_version = do
  verify_admin space_id user_uuid
  space ← load_space space_id
  check_version space expected_version
  set_name space_id name
  set_description space_id description
  set_status space_id status
  write_space space_id bumped

-- `db.delete(space)` cascades to the members and the linked transactions.
unfoldable pub delete_space : ℕ → ℕ → Action Bool
delete_space space_id user_uuid = do
  verify_owner space_id user_uuid
  load_space space_id
  modify (λ s. record s {
    spaces = delete_where (has_id space_id) s.spaces;
    members = delete_where (λ m. m.space_id == space_id) s.members;
    links = delete_where (λ l. l.space_id == space_id) s.links;
  })
  pure true

-- `timedelta(days=1)` in seconds
abbrev pub day_seconds : ℕ
day_seconds = 86400

-- `code` is the random text that the service draws; the result has the code, the space and its
-- expiry.
unfoldable pub generate_invite_code : Text → ℕ → ℕ → ℕ → ℕ → Action (Text × ℕ × Text × ℕ)
generate_invite_code code now space_id user_uuid expires_days = do
  verify_admin space_id user_uuid
  space ← load_space space_id
  let expires_at = now + expires_days * day_seconds
  write_space space_id
      (λ sp. record sp { invite_code = some code; invite_code_expires_at = some expires_at })
  pure (code, space_id, space.name, expires_at)
