-- ===== src/Space/Effects/Removal.antt =====
-- Leaving a space and removing a member from it (`leave_space` and `remove_member` of
-- server/app/services/shared_space_service.py).
use finvo.Prelude.{
  ℕ, ◌≡◌, refl, ap, ◌∙◌, Bool, true, false, ◌&&◌, List, [], ◌∷◌, ◌++◌, map, arith, ◌==◌, Bool-cases,
  inl, inr, if◌then◌else◌,
}
use finvo.Prelude.Lists.{
  select, update_where, delete_where, select-update_self, select-delete_ne, select-delete_self,
}
use finvo.Prelude.Exec.{modify, ok, final, Ensures, of_ensures, ◌>>◌, pure}
use finvo.Space.Model.{
  LeaveReason, left, removed, member_left, SharedSpace, SpaceMember, SpaceTransaction, Session,
  is_owner, is_admin, has_id, has_key,
}
use finvo.Space.Service.{load_space, bumped, bump_space_version}
use finvo.Space.Members.{notify_left, purge, leave_space, remove_member}
use finvo.Space.Rules.{nobody, one, many, answer, passes, raises, verify_admin-cases, is_member}

-- the tables after the row of `t` in the space `k` is gone, with the notice to the others
abbrev expelled : ℕ → ℕ → LeaveReason → SharedSpace → List SpaceTransaction → Session → Session
expelled k t r sp links s = record {
  spaces = update_where (has_id k) bumped s.spaces;
  members = delete_where (has_key k t) s.members;
  links = links;
  events = s.events ++ member_left k sp.name t r ∷ [];
}

-- the links that `remove_member` leaves
abbrev kept_links : Bool → ℕ → ℕ → List SpaceTransaction → List SpaceTransaction
kept_links b k t links =
    if b then delete_where (λ l. l.space_id == k && l.added_by_user_uuid == t) links else links

module _ (k t : ℕ) (r : LeaveReason) (links : List SpaceTransaction) (s : Session)
    (Q : Bool → Session → Type 0)
    (done : (sp : SharedSpace)
      → select (has_id k) s.spaces ≡ sp ∷ []
      → Q true (expelled k t r sp links s)) where
  tail-Ensures : Ensures Q (
      (bump_space_version k >> (notify_left k t r >> pure true))
        (record s { members = delete_where (has_key k t) s.members; links = links }))
  unfolding bump_space_version notify_left load_space
  tail-Ensures = elim (answer (select (has_id k) s.spaces)) [
    | nobody e ↦ rw e tt
    | many a b rest e ↦ rw e tt
    | one sp e ↦
        let e' : select (has_id k) (update_where (has_id k) bumped s.spaces) ≡ bumped sp ∷ [] =
          select-update_self (has_id k) bumped s.spaces (λ sp. refl) ∙ ap (map bumped) e in
        rw (e, e') (done sp e)
  ]

module _ (k u : ℕ) (s : Session) (Q : Bool → Session → Type 0)
    (done : (x : SpaceMember) (sp : SharedSpace)
      → select (has_key k u) s.members ≡ x ∷ []
      → is_owner x.role ≡ false
      → select (has_id k) s.spaces ≡ sp ∷ []
      → Q true (expelled k u left sp s.links s)) where
  leave-Ensures : Ensures Q (leave_space k u s)
  unfolding leave_space
  leave-Ensures = elim (answer (select (has_key k u) s.members)) [
    | nobody e ↦ rw e tt
    | many a b rest e ↦ rw e tt
    | one x e ↦ elim (Bool-cases (is_owner x.role)) [
      | inl o ↦ rw (e, o) tt
      | inr p ↦ rw (e, p) (tail-Ensures k u left s.links s Q (λ sp f. done x sp e p f))
    ]
  ]

strike-Ensures :
    (k t : ℕ) (b : Bool) (s : Session) (Q : Bool → Session → Type 0)
    → ((sp : SharedSpace)
        → select (has_id k) s.spaces ≡ sp ∷ []
        → Q true (expelled k t removed sp (kept_links b k t s.links) s))
    → Ensures Q (
        (purge b k t
            >> (modify (λ s. record s { members = delete_where (has_key k t) s.members })
                >> (bump_space_version k >> (notify_left k t removed >> pure true))))
          s)
unfolding purge
strike-Ensures k t true s Q done = tail-Ensures k t removed (kept_links true k t s.links) s Q done
strike-Ensures k t false s Q done = tail-Ensures k t removed s.links s Q done

module _ (k u t : ℕ) (b : Bool) (s : Session) (Q : Bool → Session → Type 0)
    (done : (x y : SpaceMember) (sp : SharedSpace)
      → (u == t) ≡ false
      → select (is_member k u) s.members ≡ x ∷ []
      → is_admin x.role ≡ true
      → select (has_key k t) s.members ≡ y ∷ []
      → is_owner y.role ≡ false
      → select (has_id k) s.spaces ≡ sp ∷ []
      → Q true (expelled k t removed sp (kept_links b k t s.links) s)) where
  remove-Ensures : Ensures Q (remove_member k u t b s)
  unfolding remove_member
  remove-Ensures = elim (verify_admin-cases k u s) [
    | raises e r ↦ rw r tt
    | passes x r found adm ↦ rw r (elim (Bool-cases (u == t)) [
      | inl self ↦ rw self tt
      | inr apart ↦ rw apart (elim (answer (select (has_key k t) s.members)) [
        | nobody e ↦ rw e tt
        | many a c rest e ↦ rw e tt
        | one y e ↦ elim (Bool-cases (is_owner y.role)) [
          | inl o ↦ rw (e, o) tt
          | inr p ↦ rw (e, p) (strike-Ensures k t b s Q (λ sp f. done x y sp apart found adm e p f))
        ]
      ])
    ])
  ]

select-kept_links :
    (b : Bool) (k t : ℕ) (links : List SpaceTransaction)
    → select (λ l. l.space_id == k && l.added_by_user_uuid == t) (kept_links b k t links)
      ≡ (if b then [] else select (λ l. l.space_id == k && l.added_by_user_uuid == t) links)
select-kept_links true k t links =
    select-delete_self (λ l. l.space_id == k && l.added_by_user_uuid == t) links
select-kept_links false k t links = refl

-- A call of `leave_space` that returns was made by a member whose row `x` was not the owner's. Its
-- row is gone, any row with another key is as before, the version of the space `sp` is one more, and
-- one event has been collected, which says that the user left.
leave_space-effect :
    (k u j w : ℕ) (s : Session) (b : Bool)
    → (leave_space k u s).0 ≡ ok b
    → (j == k && w == u) ≡ false
    → let s' = final (leave_space k u s) in
      (x : SpaceMember) × (sp : SharedSpace) × (select (has_key k u) s.members ≡ x ∷ [])
      × (is_owner x.role ≡ false)
      × (select (has_key k u) s'.members ≡ [])
      × (select (has_key j w) s'.members ≡ select (has_key j w) s.members)
      × (select (has_id k) s'.spaces ≡ bumped sp ∷ [])
      × (s'.events ≡ s.events ++ member_left k sp.name u left ∷ [])
leave_space-effect k u j w s b e elsewhere =
    of_ensures
      (λ r s'.
        (x : SpaceMember) × (sp : SharedSpace) × (select (has_key k u) s.members ≡ x ∷ [])
        × (is_owner x.role ≡ false)
        × (select (has_key k u) s'.members ≡ [])
        × (select (has_key j w) s'.members ≡ select (has_key j w) s.members)
        × (select (has_id k) s'.spaces ≡ bumped sp ∷ [])
        × (s'.events ≡ s.events ++ member_left k sp.name u left ∷ []))
      (leave_space k u s) b
      (leave-Ensures k u s _ (λ x sp row plain found. (
        x,
        sp,
        row,
        plain,
        select-delete_self (has_key k u) s.members,
        select-delete_ne (has_key j w) (has_key k u) s.members (λ m q. ground arith),
        select-update_self (has_id k) bumped s.spaces (λ sp. refl) ∙ ap (map bumped) found,
        refl,
      )))
      e

-- A call of `remove_member` that returns was made by an accepted owner or admin (row `x`), about
-- another user whose row `y` was not the owner's. That row is gone and any row with another key is
-- as before. With `purge_transactions` no link that the removed user added to the space is left,
-- without it those links are kept.
remove_member-effect :
    (k u t j w : ℕ) (purge_transactions : Bool) (s : Session) (b : Bool)
    → (remove_member k u t purge_transactions s).0 ≡ ok b
    → (j == k && w == t) ≡ false
    → let s' = final (remove_member k u t purge_transactions s) in
      (x : SpaceMember) × (y : SpaceMember) × ((u == t) ≡ false)
      × (select (is_member k u) s.members ≡ x ∷ [])
      × (is_admin x.role ≡ true)
      × (select (has_key k t) s.members ≡ y ∷ [])
      × (is_owner y.role ≡ false)
      × (select (has_key k t) s'.members ≡ [])
      × (select (has_key j w) s'.members ≡ select (has_key j w) s.members)
      × (select (λ l. l.space_id == k && l.added_by_user_uuid == t) s'.links ≡ (
          if purge_transactions
          then []
          else select (λ l. l.space_id == k && l.added_by_user_uuid == t) s.links))
remove_member-effect k u t j w p s b e elsewhere =
    of_ensures
      (λ r s'.
        (x : SpaceMember) × (y : SpaceMember) × ((u == t) ≡ false)
        × (select (is_member k u) s.members ≡ x ∷ [])
        × (is_admin x.role ≡ true)
        × (select (has_key k t) s.members ≡ y ∷ [])
        × (is_owner y.role ≡ false)
        × (select (has_key k t) s'.members ≡ [])
        × (select (has_key j w) s'.members ≡ select (has_key j w) s.members)
        × (select (λ l. l.space_id == k && l.added_by_user_uuid == t) s'.links ≡ (
            if p then [] else select (λ l. l.space_id == k && l.added_by_user_uuid == t) s.links)))
      (remove_member k u t p s) b
      (remove-Ensures k u t p s _ (λ x y sp apart caller adm row plain found. (
        x,
        y,
        apart,
        caller,
        adm,
        row,
        plain,
        select-delete_self (has_key k t) s.members,
        select-delete_ne (has_key j w) (has_key k t) s.members (λ m q. ground arith),
        select-kept_links p k t s.links,
      )))
      e
