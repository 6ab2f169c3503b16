-- ===== src/Space/Effects/Joining.antt =====
-- Joining by an invite code (`join_with_code` of server/app/services/shared_space_service.py).
use finvo.Prelude.{
  ℕ, ◌≡◌, ap, ◌∙◌, Bool, true, false, not, ◌⊎◌, inl, inr, [], ◌∷◌, ◌++◌, arith, Bool-cases,
}
use finvo.Prelude.Lists.{select, select-select, select-append}
use finvo.Prelude.Text.{Text, strip, upper}
use finvo.Prelude.Exec.{ok, err}
use finvo.Space.Model.{
  invalid_code, member_joined, member, accepted, SharedSpace, SpaceMember, Session, is_active,
  is_accepted, is_nil, has_id, has_key, has_code,
}
use finvo.Space.Access.{verify_membership}
use finvo.Space.Service.{get_space_detail, joined_spaces}
use finvo.Space.Members.{join_with_code, is_expired, accept_member}
use finvo.Space.Rules.{is_member}

-- An unknown code, the code of a space that is not active and an expired code cannot be told apart:
-- each gives the same error and leaves the session as it was, for any user.
join_with_code-opaque :
    (now : ℕ) (code : Text) (u : ℕ) (s : Session)
    → (select (has_code (upper (strip code))) s.spaces ≡ [])
      ⊎ ((sp : SharedSpace) × (select (has_code (upper (strip code))) s.spaces ≡ sp ∷ [])
          × ((is_active sp.status ≡ false) ⊎ (is_expired sp now ≡ true)))
    → join_with_code now code u s ≡ (err invalid_code, s)
unfolding join_with_code
join_with_code-opaque now code u s (inl unknown) = rw unknown
join_with_code-opaque now code u s (inr (sp, e, inl inactive)) = rw (e, inactive)
join_with_code-opaque now code u s (inr (sp, e, inr late)) =
    elim (Bool-cases (is_active sp.status)) [ inl on ↦ rw (e, on, late) | inr off ↦ rw (e, off) ]

keep_one : (q : SharedSpace → Bool) (sp : SharedSpace) → q sp ≡ true → select q (sp ∷ []) ≡ sp ∷ []
unfolding select
keep_one q sp h = rw h

-- the row that `join_with_code` adds
abbrev newcomer : ℕ → ℕ → SpaceMember
newcomer k u = record { space_id = k; user_uuid = u; role = member; status = accepted }

abbrev with_newcomer : ℕ → ℕ → Session → Session
with_newcomer k u s = record s { members = s.members ++ newcomer k u ∷ [] }

module _ (u : ℕ) (s : Session) (sp : SharedSpace)
    (absent : select (has_key sp.id u) s.members ≡ []) where
  newcomer_row :
      select (is_member sp.id u) (s.members ++ newcomer sp.id u ∷ []) ≡ newcomer sp.id u ∷ []
  unfolding select
  newcomer_row =
      let q : SpaceMember → Bool = λ m. is_accepted m.status in
      let before : select (is_member sp.id u) s.members ≡ [] =
        select-select (has_key sp.id u) q s.members ∙ ap (select q) absent in
      select-append (is_member sp.id u) s.members (newcomer sp.id u ∷ []) ∙ ground (arith, before)

  newcomer_joined :
      select (has_id sp.id) s.spaces ≡ sp ∷ []
      → joined_spaces sp.id u (with_newcomer sp.id u s) ≡ sp ∷ []
  newcomer_joined stored =
      let q : SharedSpace → Bool =
        λ p. not (is_nil (select (is_member p.id u) (s.members ++ newcomer sp.id u ∷ []))) in
      select-select (has_id sp.id) q s.spaces
      ∙ (ap (select q) stored ∙ keep_one q sp (rw newcomer_row))

-- The code of an active space that has not expired lets in a user who has no row there: the call
-- returns the space and the role MEMBER, the user's accepted row is added, the other tables are as
-- before, and one event is collected. So the detail that the call reads last never fails.
join_with_code-returns :
    (now : ℕ) (code : Text) (u : ℕ) (s : Session) (sp : SharedSpace)
    → select (has_code (upper (strip code))) s.spaces ≡ sp ∷ []
    → select (has_id sp.id) s.spaces ≡ sp ∷ []
    → is_active sp.status ≡ true
    → is_expired sp now ≡ false
    → select (has_key sp.id u) s.members ≡ []
    → join_with_code now code u s ≡ (
      ok (sp, member),
      record s {
        members =
            s.members
            ++ record { space_id = sp.id; user_uuid = u; role = member; status = accepted } ∷ [];
        events = s.events ++ member_joined sp.id sp.name u ∷ [];
      },
    )
unfolding join_with_code accept_member get_space_detail verify_membership
join_with_code-returns now code u s sp coded stored on fresh absent =
    rw (coded, on, fresh, absent, newcomer_row u s sp absent, newcomer_joined u s sp absent stored)
