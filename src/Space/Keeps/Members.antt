-- ===== src/Space/Keeps/Members.antt =====
-- Leaving, removing a member, changing a role and handing over the ownership keep the invariant,
-- whether the call returns or raises.
use finvo.Prelude.{
  ℕ, ◌≡◌, refl, Bool, true, false, Option, [], ◌∷◌, arith, ◌==◌, Bool-cases, inl, inr,
}
use finvo.Prelude.Lists.{select, delete_where}
use finvo.Prelude.Exec.{final, pure, ◌>>◌, Keeps, Keeps-bind, reads-bind}
use finvo.Space.Model.{
  left, removed, Role, is_accepted, SharedSpace, SpaceMember, Session, is_owner, has_key,
}
use finvo.Space.Service.{load_space, bumped, check_version, bump_space_version}
use finvo.Space.Members.{
  purge, leave_space, remove_member, update_member_role, transfer_ownership, hand_over,
  is_assignable,
}
use finvo.Space.Rules.{
  nobody, one, many, answer, passes, raises, verify_admin-cases, verify_owner-cases,
  load_space-reads, check_version-reads, same_row, is_member,
}
use finvo.Space.Invariant.{
  IsConsistent-write_space, IsConsistent-delete_member, IsConsistent-set_role,
  IsConsistent-transfer,
}
use finvo.Space.Keeps.Common.{Good, bump-Keeps, tail-Keeps}

module _ (sid uid : ℕ) where
  pub leave_space-Keeps : (k u : ℕ) → Keeps (Good sid uid) (leave_space k u)
  unfolding leave_space
  leave_space-Keeps k u s h = elim (answer (select (has_key k u) s.members)) [
    | nobody e ↦ rw e h
    | one x e ↦ elim (Bool-cases (is_owner x.role)) [
      | inl o ↦ rw (e, o) h
      | inr p ↦
          rw (e, p)
            (tail-Keeps sid uid k u left
              (record s { members = delete_where (has_key k u) s.members })
              (IsConsistent-delete_member sid uid k u e p h))
    ]
    | many x y rest e ↦ rw e h
  ]

  pub purge-Keeps : (b : Bool) (k t : ℕ) → Keeps (Good sid uid) (purge b k t)
  unfolding purge
  purge-Keeps true k t s h = h
  purge-Keeps false k t s h = h

  pub remove_member-Keeps : (k u t : ℕ) (b : Bool) → Keeps (Good sid uid) (remove_member k u t b)
  unfolding remove_member purge
  remove_member-Keeps k u t b s h = elim (verify_admin-cases k u s) [
    | raises e r ↦ rw r h
    | passes x r found q ↦ rw r (elim (Bool-cases (u == t)) [
      | inl self ↦ rw self h
      | inr other ↦ rw other (elim (answer (select (has_key k t) s.members)) [
        | nobody e ↦ rw e h
        | many x y rest e ↦ rw e h
        | one x e ↦ elim (Bool-cases (is_owner x.role)) [
          | inl o ↦ rw (e, o) h
          | inr p ↦ elim (Bool-cases b) [
            | inl gone ↦
                rw (e, p, gone)
                  (tail-Keeps sid uid k t removed _ (IsConsistent-delete_member sid uid k t e p h))
            | inr stay ↦
                rw (e, p, stay)
                  (tail-Keeps sid uid k t removed _ (IsConsistent-delete_member sid uid k t e p h))
          ]
        ]
      ])
    ])
  ]

  pub update_member_role-Keeps :
      (k u t : ℕ) (r : Role) → Keeps (Good sid uid) (update_member_role k u t r)
  unfolding update_member_role
  update_member_role-Keeps k u t r s h = elim (verify_owner-cases k u s) [
    | raises e w ↦ rw w h
    | passes x w found q ↦ rw w (elim (Bool-cases (is_assignable r)) [
      | inr bad ↦ rw bad h
      | inl good ↦ rw good (elim (Bool-cases (u == t)) [
        | inl self ↦ rw self h
        | inr other ↦ rw other (elim (answer (select (has_key k t) s.members)) [
          | nobody e ↦ rw e h
          | many x y rest e ↦ rw e h
          | one x e ↦ elim (Bool-cases (is_owner x.role)) [
            | inl o ↦ rw (e, o) h
            | inr p ↦
                rw (e, p)
                  (Keeps-bind (Good sid uid) (bump_space_version k)
                    (λ _. pure (x.user_uuid, r, x.status)) (bump-Keeps sid uid k) (λ _ s h. h) _
                    (IsConsistent-set_role sid uid k t r e p (ground arith) h))
          ]
        ])
      ])
    ])
  ]

  -- the end of `transfer_ownership`, once the checks are passed
  hand_over-Good :
      (k u t : ℕ) (space : SharedSpace) {x y : SpaceMember} (s : Session)
      → (u == t) ≡ false
      → select (is_member k u) s.members ≡ x ∷ []
      → is_owner x.role ≡ true
      → select (has_key k t) s.members ≡ y ∷ []
      → is_owner y.role ≡ false
      → is_accepted y.status ≡ true
      → (Good sid uid) s
      → (Good sid uid) (final (hand_over k u t space s))
  unfolding hand_over
  hand_over-Good k u t space {x} s other found own ey plain acc h =
      elim (answer (select (has_key k u) s.members)) [
        | nobody e ↦ rw e h
        | many a b rest e ↦ rw e h
        | one former ex ↦ rw ex (
            IsConsistent-write_space sid uid k bumped (λ sp. refl)
              (IsConsistent-transfer sid uid k u t (λ e. ground arith) ex
                (rw (same_row k u s x former found ex) at own) ey plain acc h))
      ]

  pub transfer_ownership-Keeps :
      (k u t : ℕ) (v : Option ℕ) → Keeps (Good sid uid) (transfer_ownership k u t v)
  unfolding transfer_ownership
  transfer_ownership-Keeps k u t v s h = elim (verify_owner-cases k u s) [
    | raises e w ↦ rw w h
    | passes x w found own ↦ rw w (elim (Bool-cases (u == t)) [
      | inl self ↦ rw self h
      | inr other ↦ rw other (elim (answer (select (has_key k t) s.members)) [
        | nobody e ↦ rw e h
        | many x y rest e ↦ rw e h
        | one y ey ↦ elim (Bool-cases (is_owner y.role)) [
          | inl o ↦ rw (ey, o) h
          | inr p ↦ elim (Bool-cases (is_accepted y.status)) [
            | inr not_yet ↦ rw (ey, p, not_yet) h
            | inl acc ↦
                rw (ey, p, acc)
                  (reads-bind (Good sid uid) (load_space k)
                    (λ sp. check_version sp v >> hand_over k u t sp) s (load_space-reads k s) h
                    (λ sp.
                      reads-bind (Good sid uid) (check_version sp v) (λ _. hand_over k u t sp) s
                        (check_version-reads sp v s) h
                        (λ _. hand_over-Good k u t sp s other found own ey p acc h)))
          ]
        ]
      ])
    ])
  ]
