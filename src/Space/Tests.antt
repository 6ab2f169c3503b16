-- ===== src/Space/Tests.antt =====
-- Runs of the operations on a space with an owner, an admin and a plain member.
use finvo.Prelude.{ℕ, ◌≡◌, refl, true, false, none, some, List, [], ◌∷◌, map}
use finvo.Prelude.Lists.{select, update_where}
use finvo.Prelude.Text.{codes}
use finvo.Prelude.Exec.{ok, final}
use finvo.Space.Model.{
  owner, admin, member, accepted, active, SharedSpace, SpaceMember, SpaceTransaction, Session,
  has_id, has_key, Role,
}
use finvo.Space.Access.{verify_membership, verify_owner}
use finvo.Space.Service.{bumped, load_space, check_version}
use finvo.Space.Members.{find_member, hand_over, transfer_ownership}
use finvo.Prelude.Int.{pos}
use finvo.Ledger.Model.{Transaction, expense, cleared}
use finvo.Space.Linking.{add_transaction_to_space, link_all}
use finvo.Space.Access.{verify_membership}
use finvo.Space.Effects.Linking.{add_transaction_to_space-once, IsLinked}
use finvo.Space.Invariant.{IsConsistent}
use finvo.Space.History.{
  leave, transfer, join, invite, create, Request, serve, empty, serve-IsConsistent,
}
use finvo.Space.Effects.Transfer.{Allowed, transfer_ownership-effect}

abbrev home : SharedSpace
home = record {
  id = 5;
  name = codes "Home";
  creator_uuid = 1;
  status = active;
  description = none;
  base_currency = some (codes "CNY");
  invite_code = some (codes "AB2");
  invite_code_expires_at = some 100;
  version = 3;
}

abbrev row : ℕ → Role → SpaceMember
row u r = record { space_id = 5; user_uuid = u; role = r; status = accepted }

abbrev shared : SpaceTransaction
shared = record { space_id = 5; transaction_id = 70; added_by_user_uuid = 3 }

abbrev session : Session
session = record {
  spaces = home ∷ [];
  members = row 1 owner ∷ row 2 admin ∷ row 3 member ∷ [];
  links = shared ∷ [];
  events = [];
}

abbrev history : List Request
history =
    create 5 none 1 (codes "Home") none
    ∷ invite (codes "AB2") 10 5 1 7
    ∷ join 20 (codes "ab2") 2
    ∷ transfer 5 1 2 none
    ∷ leave 5 2
    ∷ []

serve-IsConsistent_example :
    IsConsistent 5 2 (serve empty history).stored.spaces (serve empty history).stored.members
serve-IsConsistent_example = serve-IsConsistent history 5 2

transfer_ownership-effect_example :
    let s' = final (transfer_ownership 5 1 3 (some 3) session) in
    (x : SpaceMember) × (y : SpaceMember) × Allowed 5 1 3 session x y
    × (select (has_key 5 1) s'.members ≡ record x { role = member } ∷ [])
    × (select (has_key 5 3) s'.members ≡ record y { role = owner } ∷ [])
    × (select (has_key 5 2) s'.members ≡ select (has_key 5 2) session.members)
    × (select (has_id 5) s'.spaces ≡ map bumped (select (has_id 5) session.spaces))
unfolding transfer_ownership verify_owner verify_membership find_member load_space check_version
    hand_over select update_where
transfer_ownership-effect_example =
    transfer_ownership-effect 5 1 3 5 2 (some 3) session (bumped home) refl refl

abbrev dinner : ℕ → Transaction
dinner id = record {
  uuid = id;
  user_uuid = 3;
  tx_type = expense;
  status = cleared;
  amount = pos 60;
  amount_original = pos 60;
  currency = codes "CNY";
  exchange_rate = none;
  source_account_id = none;
  target_account_id = none;
}

linked_first : (add_transaction_to_space (λ id. some (dinner id)) none 5 3 71 session).0 ≡ ok false
unfolding add_transaction_to_space select
linked_first = refl

linked_all :
    (link_all (λ id. some (dinner id)) (λ id. none) 5 2 (71 ∷ 72 ∷ []) session).0
    ≡ ok (71 ∷ 72 ∷ [])
unfolding link_all select
linked_all = refl

add_transaction_to_space-once_example :
    let s' = final (add_transaction_to_space (λ id. some (dinner id)) none 5 3 71 session) in
    (IsLinked (λ id. some (dinner id)) 5 3 71 s')
    × (add_transaction_to_space (λ id. some (dinner id)) none 5 3 71 s' ≡ (ok true, s'))
add_transaction_to_space-once_example =
    add_transaction_to_space-once (λ id. some (dinner id)) none none 5 3 71 session false
      linked_first
