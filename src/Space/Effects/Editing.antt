-- ===== src/Space/Effects/Editing.antt =====
-- Roles and versions (`update_member_role` and `update_space` of
-- server/app/services/shared_space_service.py).
use finvo.Prelude.{
  ℕ, ◌≡◌, refl, ap, ◌∙◌, true, false, ◌&&◌, Option, some, [], ◌∷◌, map, arith, ◌==◌, Bool-cases,
  inl, inr,
}
use finvo.Prelude.Lists.{select, update_where, select-update_ne, select-update_self}
use finvo.Prelude.Text.{Text}
use finvo.Prelude.Exec.{ok, err, final, Ensures, of_ensures}
use finvo.Space.Model.{
  MemberStatus, Role, version_conflict, SharedSpace, SpaceMember, Session, is_owner, is_admin,
  has_id, has_key,
}
use finvo.Space.Access.{verify_membership, verify_admin}
use finvo.Space.Service.{
  StatusArg, load_space, bumped, bump_space_version, update_space, check_version,
}
use finvo.Space.Members.{update_member_role, is_assignable}
use finvo.Space.Rules.{nobody, one, many, answer, passes, raises, verify_owner-cases, is_member}

-- An `update_space` by an admin of the space (row `x`) that pins a version other than the stored
-- one raises the conflict and leaves the session as it was, whatever the new values are.
update_space-stale :
    (k u expected : ℕ) (name d : Option Text) (st : Option StatusArg) (s : Session)
    {x : SpaceMember} {sp : SharedSpace}
    → select (is_member k u) s.members ≡ x ∷ []
    → is_admin x.role ≡ true
    → select (has_id k) s.spaces ≡ sp ∷ []
    → (sp.version == expected) ≡ false
    → update_space k u name d st (some expected) s ≡ (err version_conflict, s)
unfolding update_space verify_admin load_space check_version verify_membership
update_space-stale k u expected name d st s row adm found stale = rw (row, adm, found, stale)

module _ (k u t : ℕ) (r : Role) (s : Session) (Q : ℕ × Role × MemberStatus → Session → Type 0)
    (done : (x y : SpaceMember) (sp : SharedSpace)
      → select (is_member k u) s.members ≡ x ∷ []
      → is_owner x.role ≡ true
      → is_assignable r ≡ true
      → (u == t) ≡ false
      → select (has_key k t) s.members ≡ y ∷ []
      → is_owner y.role ≡ false
      → Q
          (y.user_uuid, r, y.status)
          (record s {
            spaces = update_where (has_id k) bumped s.spaces;
            members = update_where (has_key k t) (λ m. record m { role = r }) s.members;
          })) where
  set_role-Ensures : Ensures Q (update_member_role k u t r s)
  unfolding update_member_role bump_space_version load_space
  set_role-Ensures = elim (verify_owner-cases k u s) [
    | raises e f ↦ rw f tt
    | passes x f found own ↦ rw f (elim (Bool-cases (is_assignable r)) [
      | inr bad ↦ rw bad tt
      | inl good ↦ rw good (elim (Bool-cases (u == t)) [
        | inl self ↦ rw self tt
        | inr apart ↦ rw apart (elim (answer (select (has_key k t) s.members)) [
          | nobody e ↦ rw e tt
          | many a b rest e ↦ rw e tt
          | one y e ↦ elim (Bool-cases (is_owner y.role)) [
            | inl o ↦ rw (e, o) tt
            | inr p ↦ elim (answer (select (has_id k) s.spaces)) [
              | nobody f ↦ rw (e, p, f) tt
              | many a b rest f ↦ rw (e, p, f) tt
              | one sp f ↦ rw (e, p, f) (done x y sp found own good apart e p)
            ]
          ]
        ])
      ])
    ])
  ]

-- A call of `update_member_role` that returns was made by the accepted owner of the space (row `x`),
-- asked for ADMIN or MEMBER, and was about another user whose row `y` was not the owner's. That row
-- has the new role and is otherwise the same, and any row with another key is as before.
update_member_role-effect :
    (k u t j w : ℕ) (r : Role) (s : Session) (reply : ℕ × Role × MemberStatus)
    → (update_member_role k u t r s).0 ≡ ok reply
    → (j == k && w == t) ≡ false
    → let s' = final (update_member_role k u t r s) in
      (x : SpaceMember) × (y : SpaceMember) × (select (is_member k u) s.members ≡ x ∷ [])
      × (is_owner x.role ≡ true)
      × (is_assignable r ≡ true)
      × ((u == t) ≡ false)
      × (select (has_key k t) s.members ≡ y ∷ [])
      × (is_owner y.role ≡ false)
      × (select (has_key k t) s'.members ≡ record y { role = r } ∷ [])
      × (select (has_key j w) s'.members ≡ select (has_key j w) s.members)
update_member_role-effect k u t j w r s reply e elsewhere =
    of_ensures
      (λ _ s'.
        (x : SpaceMember) × (y : SpaceMember) × (select (is_member k u) s.members ≡ x ∷ [])
        × (is_owner x.role ≡ true)
        × (is_assignable r ≡ true)
        × ((u == t) ≡ false)
        × (select (has_key k t) s.members ≡ y ∷ [])
        × (is_owner y.role ≡ false)
        × (select (has_key k t) s'.members ≡ record y { role = r } ∷ [])
        × (select (has_key j w) s'.members ≡ select (has_key j w) s.members))
      (update_member_role k u t r s) reply
      (set_role-Ensures k u t r s _ (λ x y sp caller own good apart row plain.
        let f : SpaceMember → SpaceMember = λ m. record m { role = r } in
        (
          x,
          y,
          caller,
          own,
          good,
          apart,
          row,
          plain,
          select-update_self (has_key k t) f s.members (λ m. refl) ∙ ap (map f) row,
          select-update_ne (has_key j w) (has_key k t) f s.members (λ m q. ground arith),
        )))
      e
