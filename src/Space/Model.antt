-- ===== src/Space/Model.antt =====
-- The rows of server/app/models/shared_space.py and the state of a session on them. Identifiers
-- are numbers, instants are seconds. A table is the list of its rows in insertion order.
use finvo.Prelude.{ℕ, Bool, true, false, Option, none, some, List, [], ◌∷◌, ◌++◌, ◌==◌, ◌&&◌}
use finvo.Prelude.Int.{ℤ}
use finvo.Prelude.Text.{Text, text_eq}
use finvo.Prelude.Exec.{Exec, ok, pure, raise}

-- `SpaceMember.role`; the column is text, `custom` is any other value of it.
pub data Role : Type 0 where
  owner admin member : Role
  custom : Text → Role

-- `SpaceMember.status`: only the test for "ACCEPTED" is ever made.
pub data MemberStatus : Type 0 where
  accepted : MemberStatus
  unaccepted : Text → MemberStatus

-- `SpaceStatus` of core/constants/space_constants.py
pub data SpaceStatus : Type 0 where
  active archived : SpaceStatus

pub record SharedSpace : Type 0 where
  pub id : ℕ
  pub name : Text
  pub creator_uuid : ℕ
  pub status : SpaceStatus
  pub description : Option Text
  pub base_currency : Option Text
  pub invite_code : Option Text
  pub invite_code_expires_at : Option ℕ
  pub version : ℕ

pub record SpaceMember : Type 0 where
  pub space_id : ℕ
  pub user_uuid : ℕ
  pub role : Role
  pub status : MemberStatus

pub record SpaceTransaction : Type 0 where
  pub space_id : ℕ
  pub transaction_id : ℕ
  pub added_by_user_uuid : ℕ

-- why a `MemberLeftEvent` was emitted
pub data LeaveReason : Type 0 where
  left removed ownership_transferred : LeaveReason

-- the domain events of notification_handlers.py that the services collect, less the type and the
-- description that an added transaction is shown with
pub data Event : Type 0 where
  member_joined : ℕ → Text → ℕ → Event
  member_left : ℕ → Text → ℕ → LeaveReason → Event
  transaction_added : ℕ → Text → ℕ → ℕ → ℤ → Text → Event

-- The session: the three tables, and the events that wait for the commit.
pub record Session : Type 0 where
  pub spaces : List SharedSpace
  pub members : List SpaceMember
  pub links : List SpaceTransaction
  pub events : List Event

pub data SpaceError : Type 0 where
  not_a_member need_admin need_owner : SpaceError
  space_not_found member_not_found invalid_code : SpaceError
  already_member owner_cannot_leave use_leave cannot_remove_owner : SpaceError
  bad_role own_role cannot_change_owner : SpaceError
  transfer_to_self already_owner not_accepted : SpaceError
  transaction_not_exists not_own_transaction : SpaceError
  version_conflict bad_status multiple_rows no_row duplicate_key : SpaceError

abbrev pub Action : Type 0 → Type 0
Action A = Exec Session SpaceError A

abbrev pub is_accepted : MemberStatus → Bool
is_accepted accepted = true
is_accepted (unaccepted _) = false

abbrev pub is_owner : Role → Bool
is_owner owner = true
is_owner _ = false

-- `role in ("OWNER", "ADMIN")`
abbrev pub is_admin : Role → Bool
is_admin owner = true
is_admin admin = true
is_admin _ = false

abbrev pub is_active : SpaceStatus → Bool
is_active active = true
is_active archived = false

-- `Result.scalar_one_or_none()`: a second row is an error.
abbrev pub scalar_one_or_none : {A : Type 0} → List A → Action (Option A)
scalar_one_or_none [] = pure none
scalar_one_or_none (x ∷ []) = pure (some x)
scalar_one_or_none (x ∷ y ∷ rest) = raise multiple_rows

-- `Result.scalar_one()`: so is no row.
abbrev pub scalar_one : {A : Type 0} → List A → Action A
scalar_one [] = raise no_row
scalar_one (x ∷ []) = pure x
scalar_one (x ∷ y ∷ rest) = raise multiple_rows

-- `SharedSpace.id == space_id`
abbrev pub has_id : ℕ → SharedSpace → Bool
has_id space_id s = s.id == space_id

-- `SpaceMember.space_id == space_id AND SpaceMember.user_uuid == user_uuid`
abbrev pub has_key : ℕ → ℕ → SpaceMember → Bool
has_key space_id user_uuid m = m.space_id == space_id && m.user_uuid == user_uuid

-- `SharedSpace.invite_code == code`; NULL matches nothing.
abbrev pub has_code : Text → SharedSpace → Bool
has_code code s = elim s.invite_code [ none ↦ false | some c ↦ text_eq c code ]

-- `collect_event(session, event)`
abbrev pub collect_event : Event → Action (Unit {0})
collect_event e s = (ok tt, record s { events = s.events ++ e ∷ [] })

abbrev pub is_nil : {A : Type 0} → List A → Bool
is_nil [] = true
is_nil (x ∷ rest) = false
