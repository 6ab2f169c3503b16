-- ===== src/Space/Effects/Transfer.antt =====
-- Handing over a space (`transfer_ownership` of server/app/services/shared_space_service.py).
use finvo.Prelude.{
  ◌++◌, ℕ, ◌≡◌, refl, ap, ◌∙◌, true, false, ◌&&◌, ◌||◌, Option, List, [], ◌∷◌, map, arith, ◌==◌,
  Bool-cases, inl, inr,
}
use finvo.Prelude.Lists.{select, update_where, select-update_ne, select-update_self}
use finvo.Prelude.Exec.{ok, final, Ensures, of_ensures, reads-Ensures, ◌>>◌}
use finvo.Space.Model.{
  ownership_transferred, member_left, owner, member, SharedSpace, SpaceMember, Session, is_owner,
  is_accepted, has_id, has_key,
}
use finvo.Space.Service.{load_space, check_version, bumped}
use finvo.Space.Members.{hand_over, transfer_ownership}
use finvo.Space.Rules.{
  nobody, one, many, answer, passes, raises, verify_owner-cases, load_space-reads,
  check_version-reads, same_row, is_member,
}

-- the tables after the former owner `u` has handed the space `k` over to `t`
abbrev pub handed : ℕ → ℕ → ℕ → List SpaceMember → List SpaceMember
handed k u t members =
    update_where (has_key k t) (λ m. record m { role = owner })
      (update_where (has_key k u) (λ m. record m { role = member }) members)

-- What has been checked when `transfer_ownership` goes through, of the caller's row `x` and the
-- target's row `y`.
pub record Allowed (k u t : ℕ) (s : Session) (x y : SpaceMember) : Type 0 where
  pub apart : (u == t) ≡ false
  pub caller : select (has_key k u) s.members ≡ x ∷ []
  pub target : select (has_key k t) s.members ≡ y ∷ []
  pub owned : is_owner x.role ≡ true
  pub plain : is_owner y.role ≡ false
  pub joined : is_accepted y.status ≡ true

module _ (k u t : ℕ) (v : Option ℕ) (s : Session) (Q : SharedSpace → Session → Type 0)
    (done : (sp : SharedSpace) (x y : SpaceMember)
      → Allowed k u t s x y
      → Q (bumped sp) (record s {
        spaces = update_where (has_id k) bumped s.spaces;
        members = handed k u t s.members;
        events = s.events ++ member_left k sp.name u ownership_transferred ∷ [];
      })) where
  hand_over-Ensures :
      (sp : SharedSpace) (x y : SpaceMember)
      → select (is_member k u) s.members ≡ x ∷ []
      → is_owner x.role ≡ true
      → (u == t) ≡ false
      → select (has_key k t) s.members ≡ y ∷ []
      → is_owner y.role ≡ false
      → is_accepted y.status ≡ true
      → Ensures Q (hand_over k u t sp s)
  unfolding hand_over
  hand_over-Ensures sp x y found own apart ey plain acc =
      elim (answer (select (has_key k u) s.members)) [
        | nobody e ↦ rw e tt
        | many a b rest e ↦ rw e tt
        | one former ex ↦ rw ex (
            done sp former y record {
              apart = apart;
              caller = ex;
              target = ey;
              owned = rw (same_row k u s x former found ex) at own;
              plain = plain;
              joined = acc;
            })
      ]

  transfer-Ensures : Ensures Q (transfer_ownership k u t v s)
  unfolding transfer_ownership
  transfer-Ensures = elim (verify_owner-cases k u s) [
    | raises e r ↦ rw r tt
    | passes x r found own ↦ rw r (elim (Bool-cases (u == t)) [
      | inl self ↦ rw self tt
      | inr other ↦ rw other (elim (answer (select (has_key k t) s.members)) [
        | nobody e ↦ rw e tt
        | many a b rest e ↦ rw e tt
        | one y ey ↦ elim (Bool-cases (is_owner y.role)) [
          | inl o ↦ rw (ey, o) tt
          | inr p ↦ elim (Bool-cases (is_accepted y.status)) [
            | inr not_yet ↦ rw (ey, p, not_yet) tt
            | inl acc ↦
                rw (ey, p, acc)
                  (reads-Ensures Q (load_space k) (λ sp. check_version sp v >> hand_over k u t sp) s
                    (load_space-reads k s)
                    (λ sp _.
                      reads-Ensures Q (check_version sp v) (λ _. hand_over k u t sp) s
                        (check_version-reads sp v s)
                        (λ _ _. hand_over-Ensures sp x y found own other ey p acc)))
          ]
        ]
      ])
    ])
  ]

-- the three queries by key after a hand-over
handed_rows :
    (k u t j w : ℕ) (xs : List SpaceMember) {x y : SpaceMember}
    → (u == t) ≡ false
    → (j == k && (w == u || w == t)) ≡ false
    → select (has_key k u) xs ≡ x ∷ []
    → select (has_key k t) xs ≡ y ∷ []
    → (select (has_key k u) (handed k u t xs) ≡ record x { role = member } ∷ [])
      × (select (has_key k t) (handed k u t xs) ≡ record y { role = owner } ∷ [])
      × (select (has_key j w) (handed k u t xs) ≡ select (has_key j w) xs)
handed_rows k u t j w xs apart elsewhere ex ey =
    let f : SpaceMember → SpaceMember = λ m. record m { role = member } in
    let g : SpaceMember → SpaceMember = λ m. record m { role = owner } in
    let mid : List SpaceMember = update_where (has_key k u) f xs in
    (
      select-update_ne (has_key k u) (has_key k t) g mid (λ m q. ground arith)
          ∙ (select-update_self (has_key k u) f xs (λ m. refl) ∙ ap (map f) ex),
      select-update_self (has_key k t) g mid (λ m. refl)
          ∙ ap (map g)
              (select-update_ne (has_key k t) (has_key k u) f xs (λ m q. ground arith) ∙ ey),
      select-update_ne (has_key j w) (has_key k t) g mid (λ m q. ground arith)
          ∙ select-update_ne (has_key j w) (has_key k u) f xs (λ m q. ground arith),
    )

-- A call of `transfer_ownership` that returns was made by the owner of the space, to another,
-- accepted member that was not the owner: rows `x` and `y` were theirs. In the state that it leaves
-- the caller's row has the role MEMBER and the target's row the role OWNER, nothing else of the two
-- rows is changed, any row with another key is as before, and the version of the space is one more.
pub transfer_ownership-effect :
    (k u t j w : ℕ) (v : Option ℕ) (s : Session) (sp : SharedSpace)
    → (transfer_ownership k u t v s).0 ≡ ok sp
    → (j == k && (w == u || w == t)) ≡ false
    → let s' = final (transfer_ownership k u t v s) in
      (x : SpaceMember) × (y : SpaceMember) × Allowed k u t s x y
      × (select (has_key k u) s'.members ≡ record x { role = member } ∷ [])
      × (select (has_key k t) s'.members ≡ record y { role = owner } ∷ [])
      × (select (has_key j w) s'.members ≡ select (has_key j w) s.members)
      × (select (has_id k) s'.spaces ≡ map bumped (select (has_id k) s.spaces))
transfer_ownership-effect k u t j w v s sp e elsewhere =
    of_ensures
      (λ sp s'.
        (x : SpaceMember) × (y : SpaceMember) × Allowed k u t s x y
        × (select (has_key k u) s'.members ≡ record x { role = member } ∷ [])
        × (select (has_key k t) s'.members ≡ record y { role = owner } ∷ [])
        × (select (has_key j w) s'.members ≡ select (has_key j w) s.members)
        × (select (has_id k) s'.spaces ≡ map bumped (select (has_id k) s.spaces)))
      (transfer_ownership k u t v s) sp
      (transfer-Ensures k u t v s _ (λ sp x y a.
        let (former, heir, others) =
          handed_rows k u t j w s.members a.apart elsewhere a.caller a.target in
        (
          x,
          y,
          a,
          former,
          heir,
          others,
          select-update_self (has_id k) bumped s.spaces (λ sp. refl),
        )))
      e
