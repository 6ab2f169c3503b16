-- ===== src/Space/Invariant.antt =====
-- The invariant of the space tables, and what the writes of the services do to it.
use finvo.Prelude.{
  ◌⊎◌, ℕ, ◌≤◌, ◌≡◌, ◌≢◌, refl, ap, Bool, true, false, not, ◌&&◌, List, [], ◌∷◌, ◌++◌, arith, ◌==◌,
  ==_iff, Bool-cases, inl, inr, ◌∙◌,
}
use finvo.Prelude.Lists.{
  length-select, count, select, delete_where, update_where, count-append, count-delete,
  count-update, select_sound, count-update_keep, count-delete_ne, count-delete_all, count-delete-le,
  count-update-le, count_mono, select-update_ne,
}
use finvo.Space.Model.{
  Role, owner, member, accepted, SharedSpace, SpaceMember, Session, is_accepted, is_owner, has_id,
  has_key,
}

-- the tests behind the counts
abbrev pub in_space : ℕ → SpaceMember → Bool
in_space sid m = m.space_id == sid

abbrev pub owns : ℕ → SpaceMember → Bool
owns sid m = m.space_id == sid && is_owner m.role

abbrev pub owns_pending : ℕ → SpaceMember → Bool
owns_pending sid m = m.space_id == sid && (is_owner m.role && not (is_accepted m.status))

-- For a space `sid` and a user `uid`: the space is stored once, it has one owner, who has accepted,
-- the user has one row in it, and no member refers to a space that is gone.
pub record IsConsistent (sid uid : ℕ) (spaces : List SharedSpace) (members : List SpaceMember)
    : Type 0 where
  pub one_space : count (has_id sid) spaces ≤ 1
  pub one_owner : count (owns sid) members ≡ count (has_id sid) spaces
  pub owner_accepted : count (owns_pending sid) members ≡ 0
  pub one_row : count (has_key sid uid) members ≤ 1
  pub no_orphan : (count (in_space sid) members ≡ 0) ⊎ (count (has_id sid) spaces ≡ 1)

abbrev pub IsValid : Session → Type 0
IsValid s = (sid uid : ℕ) → IsConsistent sid uid s.spaces s.members

module _ (sid uid : ℕ) {spaces : List SharedSpace} {members : List SpaceMember} where
  -- A write to a space that keeps its identifier.
  pub IsConsistent-write_space :
      (k : ℕ) (f : SharedSpace → SharedSpace)
      → ((sp : SharedSpace) → (f sp).id ≡ sp.id)
      → IsConsistent sid uid spaces members
      → IsConsistent sid uid (update_where (has_id k) f spaces) members
  IsConsistent-write_space k f keep h = ground (
    arith,
    count-update_keep (has_id sid) (has_id k) f spaces (λ sp. ap (λ n. n == sid) (keep sp)),
  )

  -- The row of a plain member goes.
  pub IsConsistent-delete_member :
      (k u : ℕ) {x : SpaceMember}
      → select (has_key k u) members ≡ x ∷ []
      → is_owner x.role ≡ false
      → IsConsistent sid uid spaces members
      → IsConsistent sid uid spaces (delete_where (has_key k u) members)
  unfolding count
  IsConsistent-delete_member k u {x} e plain h = ground (
    arith,
    count-delete (owns sid) (has_key k u) members,
    count-delete-le (owns_pending sid) (has_key k u) members,
    count-delete-le (has_key sid uid) (has_key k u) members,
    count-delete-le (in_space sid) (has_key k u) members,
  )

  -- A new plain member of a space that exists.
  pub IsConsistent-add_member :
      (x : SpaceMember)
      → select (has_key x.space_id x.user_uuid) members ≡ []
      → count (has_id x.space_id) spaces ≡ 1
      → is_owner x.role ≡ false
      → IsConsistent sid uid spaces members
      → IsConsistent sid uid spaces (members ++ x ∷ [])
  unfolding count
  IsConsistent-add_member x none_yet stored plain h = ground (
    arith,
    count-append (owns sid) members (x ∷ []),
    count-append (owns_pending sid) members (x ∷ []),
    count-append (has_key sid uid) members (x ∷ []),
    count-append (in_space sid) members (x ∷ []),
    length-select (has_key x.space_id x.user_uuid) members,
    ==_iff x.space_id sid,
    ==_iff x.user_uuid uid,
  )

  -- A member's row is accepted.
  pub IsConsistent-accept_member :
      (k u : ℕ)
      → IsConsistent sid uid spaces members
      → IsConsistent sid uid spaces
          (update_where (has_key k u) (λ m. record m { status = accepted }) members)
  IsConsistent-accept_member k u h =
      let f : SpaceMember → SpaceMember = λ m. record m { status = accepted } in
      ground (
        arith,
        count-update_keep (owns sid) (has_key k u) f members (λ m. refl),
        count-update-le (owns_pending sid) (has_key k u) f members (λ m h. ground arith),
        count-update_keep (has_key sid uid) (has_key k u) f members (λ m. refl),
        count-update_keep (in_space sid) (has_key k u) f members (λ m. refl),
      )

  -- A plain member's role becomes another one that is not the owner's.
  pub IsConsistent-set_role :
      (k u : ℕ) (r : Role) {x : SpaceMember}
      → select (has_key k u) members ≡ x ∷ []
      → is_owner x.role ≡ false
      → is_owner r ≡ false
      → IsConsistent sid uid spaces members
      → IsConsistent sid uid spaces
          (update_where (has_key k u) (λ m. record m { role = r }) members)
  unfolding count
  IsConsistent-set_role k u r e plain plain' h =
      let f : SpaceMember → SpaceMember = λ m. record m { role = r } in
      ground (
        arith,
        count-update (owns sid) (has_key k u) f members,
        count-update-le (owns_pending sid) (has_key k u) f members (λ m h. ground arith),
        count-update_keep (has_key sid uid) (has_key k u) f members (λ m. refl),
        count-update_keep (in_space sid) (has_key k u) f members (λ m. refl),
      )

  -- The accepted member `t` of the space `k` takes the place of its owner `o`.
  pub IsConsistent-transfer :
      (k o t : ℕ) {x y : SpaceMember}
      → o ≢ t
      → select (has_key k o) members ≡ x ∷ []
      → is_owner x.role ≡ true
      → select (has_key k t) members ≡ y ∷ []
      → is_owner y.role ≡ false
      → is_accepted y.status ≡ true
      → IsConsistent sid uid spaces members
      → IsConsistent sid uid spaces (
          update_where
            (has_key k t)
            (λ m. record m { role = owner })
            (update_where (has_key k o) (λ m. record m { role = member }) members))
  unfolding count
  IsConsistent-transfer k o t {x} {y} apart ex own ey plain acc h =
      let f : SpaceMember → SpaceMember = λ m. record m { role = member } in
      let g : SpaceMember → SpaceMember = λ m. record m { role = owner } in
      let mid : List SpaceMember = update_where (has_key k o) f members in
      let ey' : select (has_key k t) mid ≡ y ∷ [] =
        select-update_ne (has_key k t) (has_key k o) f members (λ m q. ground arith) ∙ ey in
      ground (
        arith,
        select_sound (has_key k o) members ex,
        select_sound (has_key k t) members ey,
        ey',
        count-update (owns sid) (has_key k o) f members,
        count-update (owns sid) (has_key k t) g mid,
        count-update (owns_pending sid) (has_key k o) f members,
        count-update (owns_pending sid) (has_key k t) g mid,
        count-update_keep (has_key sid uid) (has_key k o) f members (λ m. refl),
        count-update_keep (has_key sid uid) (has_key k t) g mid (λ m. refl),
        count-update_keep (in_space sid) (has_key k o) f members (λ m. refl),
        count-update_keep (in_space sid) (has_key k t) g mid (λ m. refl),
      )

  -- A new space with its creator as the first member.
  pub IsConsistent-create :
      (sp : SharedSpace) (u : ℕ) (x : SpaceMember)
      → x ≡ record { space_id = sp.id; user_uuid = u; role = owner; status = accepted }
      → count (has_id sp.id) spaces ≡ 0
      → count (in_space sp.id) members ≡ 0
      → IsConsistent sid uid spaces members
      → IsConsistent sid uid (spaces ++ sp ∷ []) (members ++ x ∷ [])
  unfolding count
  IsConsistent-create sp u x e fresh unused h = ground (
    arith,
    count-append (has_id sid) spaces (sp ∷ []),
    count-append (owns sid) members (x ∷ []),
    count-append (owns_pending sid) members (x ∷ []),
    count-append (has_key sid uid) members (x ∷ []),
    count-append (in_space sid) members (x ∷ []),
    count_mono (owns sid) (in_space sid) members (λ m q. ground arith),
    count_mono (has_key sid uid) (in_space sid) members (λ m q. ground arith),
    ==_iff sp.id sid,
  )

  -- A space goes with all its members.
  pub IsConsistent-delete_space :
      (k : ℕ)
      → IsConsistent sid uid spaces members
      → IsConsistent sid uid (delete_where (has_id k) spaces) (delete_where (in_space k) members)
  IsConsistent-delete_space k h = elim (Bool-cases (k == sid)) [
    | inl same ↦ ground (
      arith,
      count-delete_all (has_id sid) (has_id k) spaces (λ sp q. ground arith),
      count-delete_all (owns sid) (in_space k) members (λ m q. ground arith),
      count-delete-le (owns_pending sid) (in_space k) members,
      count-delete-le (has_key sid uid) (in_space k) members,
      count-delete_all (in_space sid) (in_space k) members (λ m q. ground arith),
    )
    | inr other ↦ ground (
      arith,
      count-delete_ne (has_id sid) (has_id k) spaces (λ sp q. ground arith),
      count-delete_ne (owns sid) (in_space k) members (λ m q. ground arith),
      count-delete-le (owns_pending sid) (in_space k) members,
      count-delete-le (has_key sid uid) (in_space k) members,
      count-delete_ne (in_space sid) (in_space k) members (λ m q. ground arith),
    )
  ]
