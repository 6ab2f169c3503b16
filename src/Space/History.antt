-- ===== src/Space/History.antt =====
-- Requests on shared spaces, each in its unit of work: `get_session_context` of
-- server/app/core/database.py commits what returned and then dispatches its events
-- (`dispatch_pending_events` of core/events.py), and rolls back what raised.
use finvo.Prelude.{ℕ, Bool, Option, List, [], ◌∷◌, ◌++◌, arith}
use finvo.Prelude.Lists.{count}
use finvo.Prelude.Text.{Text}
use finvo.Prelude.Exec.{Outcome, ok, err, final}
use finvo.Space.Model.{Session, Event, Role, Action, SpaceError}
use finvo.Space.Service.{StatusArg, create_space, update_space, delete_space, generate_invite_code}
use finvo.Space.Members.{
  join_with_code, leave_space, remove_member, update_member_role, transfer_ownership,
}
use finvo.Space.Invariant.{IsConsistent, IsValid}
use finvo.Space.Keeps.Service.{
  create_space-Keeps, update_space-Keeps, delete_space-Keeps, generate_invite_code-Keeps,
  join_with_code-Keeps,
}
use finvo.Space.Keeps.Members.{
  leave_space-Keeps, remove_member-Keeps, update_member_role-Keeps, transfer_ownership-Keeps,
}

-- What is committed, and the events that were handed to the bus.
pub record World : Type 0 where
  pub stored : Session
  pub dispatched : List Event

-- a commit empties the queue of the session
abbrev pub committed : Session → Session
committed s = record s { events = [] }

abbrev pub settle : {A : Type 0} → World → Outcome SpaceError A × Session → World
settle w (ok a, s) = record { stored = committed s; dispatched = w.dispatched ++ s.events }
settle w (err e, s) = w

-- `async with get_session_context() as session: await m(session)`
unfoldable pub get_session_context : {A : Type 0} → Action A → World → World
get_session_context m w = settle w (m w.stored)

pub data Request : Type 0 where
  create : ℕ → Option (Option Text) → ℕ → Text → Option Text → Request
  update : ℕ → ℕ → Option Text → Option Text → Option StatusArg → Option ℕ → Request
  delete : ℕ → ℕ → Request
  invite : Text → ℕ → ℕ → ℕ → ℕ → Request
  join : ℕ → Text → ℕ → Request
  leave : ℕ → ℕ → Request
  remove : ℕ → ℕ → ℕ → Bool → Request
  set_role : ℕ → ℕ → ℕ → Role → Request
  transfer : ℕ → ℕ → ℕ → Option ℕ → Request

-- the handlers of server/app/api/v1/shared_space.py
unfoldable pub handle : Request → World → World
unfolding get_session_context
handle (create i c u n d) = get_session_context (create_space i c u n d)
handle (update k u n d st v) = get_session_context (update_space k u n d st v)
handle (delete k u) = get_session_context (delete_space k u)
handle (invite c now k u days) = get_session_context (generate_invite_code c now k u days)
handle (join now c u) = get_session_context (join_with_code now c u)
handle (leave k u) = get_session_context (leave_space k u)
handle (remove k u t b) = get_session_context (remove_member k u t b)
handle (set_role k u t r) = get_session_context (update_member_role k u t r)
handle (transfer k u t v) = get_session_context (transfer_ownership k u t v)

unfoldable pub serve : World → List Request → World
serve w [] = w
serve w (r ∷ rest) = serve (handle r w) rest

abbrev pub empty : World
empty = record {
  stored = record { spaces = []; members = []; links = []; events = [] };
  dispatched = [];
}

-- A request commits a state that its method reached, or changes nothing.
settle-IsValid :
    {A : Type 0} (w : World) (r : Outcome SpaceError A × Session)
    → IsValid w.stored
    → IsValid (final r)
    → IsValid (settle w r).stored
settle-IsValid w (ok a, s) h h' = h'
settle-IsValid w (err e, s) h h' = h

handle-IsValid : (r : Request) (w : World) → IsValid w.stored → IsValid (handle r w).stored
unfolding handle
handle-IsValid (create i c u n d) w h =
    settle-IsValid w (create_space i c u n d w.stored) h
      (λ sid uid. create_space-Keeps sid uid i c u n d w.stored h)
handle-IsValid (update k u n d st v) w h =
    settle-IsValid w (update_space k u n d st v w.stored) h
      (λ sid uid. update_space-Keeps sid uid k u n d st v w.stored (h sid uid))
handle-IsValid (delete k u) w h =
    settle-IsValid w (delete_space k u w.stored) h
      (λ sid uid. delete_space-Keeps sid uid k u w.stored (h sid uid))
handle-IsValid (invite c now k u days) w h =
    settle-IsValid w (generate_invite_code c now k u days w.stored) h
      (λ sid uid. generate_invite_code-Keeps sid uid c now k u days w.stored (h sid uid))
handle-IsValid (join now c u) w h =
    settle-IsValid w (join_with_code now c u w.stored) h
      (λ sid uid. join_with_code-Keeps sid uid now c u w.stored h)
handle-IsValid (leave k u) w h =
    settle-IsValid w (leave_space k u w.stored) h
      (λ sid uid. leave_space-Keeps sid uid k u w.stored (h sid uid))
handle-IsValid (remove k u t b) w h =
    settle-IsValid w (remove_member k u t b w.stored) h
      (λ sid uid. remove_member-Keeps sid uid k u t b w.stored (h sid uid))
handle-IsValid (set_role k u t r) w h =
    settle-IsValid w (update_member_role k u t r w.stored) h
      (λ sid uid. update_member_role-Keeps sid uid k u t r w.stored (h sid uid))
handle-IsValid (transfer k u t v) w h =
    settle-IsValid w (transfer_ownership k u t v w.stored) h
      (λ sid uid. transfer_ownership-Keeps sid uid k u t v w.stored (h sid uid))

serve-IsValid :
    (w : World) (requests : List Request) → IsValid w.stored → IsValid (serve w requests).stored
unfolding serve
serve-IsValid w [] h = h
serve-IsValid w (r ∷ rest) h = serve-IsValid (handle r w) rest (handle-IsValid r w h)

IsValid-empty : IsValid empty.stored
unfolding count
IsValid-empty sid uid = ground arith

-- From empty tables, after any requests, failing ones included, for every space `sid` and user
-- `uid`: the space is stored at most once, it has exactly one owner row if it is stored and none if
-- not, no owner row is unaccepted, the user has at most one row in it, and if there is any member
-- row for the space then it is stored.
pub serve-IsConsistent :
    (requests : List Request) (sid uid : ℕ)
    → IsConsistent sid uid
        (serve empty requests).stored.spaces
        (serve empty requests).stored.members
serve-IsConsistent requests sid uid = serve-IsValid empty requests IsValid-empty sid uid
