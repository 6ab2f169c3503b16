-- ===== src/Space/Keeps/Service.antt =====
-- Creating, updating and deleting a space, its invite code and joining by it keep the invariant.
use finvo.Prelude.{
  sym, ap, ◌∙◌, ℕ, ◌≡◌, refl, not, ◌||◌, Option, none, some, [], arith, Bool-cases, inl, inr,
}
use finvo.Prelude.Lists.{count, length, length-select, select, count-of_select}
use finvo.Prelude.Text.{Text, strip, upper}
use finvo.Prelude.Exec.{Outcome, ok, err, final, after, pure, ◌>>=◌, ◌>>◌, Keeps, Keeps-bind}
use finvo.Space.Model.{
  SharedSpace, SpaceMember, Session, SpaceError, is_accepted, is_active, has_id, has_key, has_code,
  collect_event, member_joined,
}
use finvo.Space.Access.{verify_admin, verify_owner}
use finvo.Space.Service.{
  set_name, set_description, set_status, StatusArg, load_space, bumped, write_space, check_version,
  create_space, update_space, delete_space, generate_invite_code, get_space_detail,
}
use finvo.Space.Members.{accept_member, join_with_code, is_expired}
use finvo.Space.Rules.{nobody, one, many, answer}
use finvo.Space.Invariant.{
  in_space, IsValid, IsConsistent-write_space, IsConsistent-add_member, IsConsistent-accept_member,
  IsConsistent-create, IsConsistent-delete_space,
}
use finvo.Space.Keeps.Common.{
  Good, verify_admin-Keeps, verify_owner-Keeps, load_space-Keeps, check_version-Keeps, write-Keeps,
  get_space_detail-Keeps,
}

-- A space that is not stored has no members.
unused :
    (k u : ℕ) (s : Session)
    → IsValid s
    → count (has_id k) s.spaces ≡ 0
    → count (in_space k) s.members ≡ 0
unused k u s h none_stored = omega (arith, (h k u).no_orphan)

module _ (sid uid : ℕ) where
  pub create_space-Keeps :
      (new_id : ℕ) (settings : Option (Option Text)) (u : ℕ) (name : Text) (d : Option Text)
      (s : Session)
      → IsValid s
      → Good sid uid (final (create_space new_id settings u name d s))
  unfolding create_space
  create_space-Keeps new_id settings u name d s h =
      elim (answer (select (has_id new_id) s.spaces)) [
        | nobody e ↦
            let fresh : count (has_id new_id) s.spaces ≡ 0 =
              sym (length-select (has_id new_id) s.spaces) ∙ ap length e in
            rw e
              (IsConsistent-create sid uid _ u _ refl fresh (unused new_id u s h fresh) (h sid uid))
        | one x e ↦ rw e (h sid uid)
        | many x y rest e ↦ rw e (h sid uid)
      ]

  pub generate_invite_code-Keeps :
      (code : Text) (now k u days : ℕ)
      → Keeps (Good sid uid) (generate_invite_code code now k u days)
  unfolding generate_invite_code
  generate_invite_code-Keeps code now k u days =
      Keeps-bind (Good sid uid) (verify_admin k u) _ (verify_admin-Keeps sid uid k u) (λ _.
        Keeps-bind (Good sid uid) (load_space k) _ (load_space-Keeps sid uid k)
          (λ sp s h. IsConsistent-write_space sid uid k _ (λ sp. refl) h))

  pub delete_space-Keeps : (k u : ℕ) → Keeps (Good sid uid) (delete_space k u)
  unfolding delete_space
  delete_space-Keeps k u =
      Keeps-bind (Good sid uid) (verify_owner k u) _ (verify_owner-Keeps sid uid k u) (λ _.
        Keeps-bind (Good sid uid) (load_space k) _ (load_space-Keeps sid uid k)
          (λ sp s h. IsConsistent-delete_space sid uid k h))

  set_name-Keeps : (k : ℕ) (o : Option Text) → Keeps (Good sid uid) (set_name k o)
  set_name-Keeps k none s h = h
  set_name-Keeps k (some v) s h =
      write-Keeps sid uid k (λ sp. record sp { name = v }) (λ sp. refl) s h

  set_description-Keeps : (k : ℕ) (o : Option Text) → Keeps (Good sid uid) (set_description k o)
  set_description-Keeps k none s h = h
  set_description-Keeps k (some v) s h =
      write-Keeps sid uid k (λ sp. record sp { description = some v }) (λ sp. refl) s h

  set_status-Keeps : (k : ℕ) (o : Option StatusArg) → Keeps (Good sid uid) (set_status k o)
  set_status-Keeps k none s h = h
  set_status-Keeps k (some (StatusArg.other_text t)) s h = h
  set_status-Keeps k (some (StatusArg.member_of_enum v)) s h =
      write-Keeps sid uid k (λ sp. record sp { status = v }) (λ sp. refl) s h
  set_status-Keeps k (some (StatusArg.valid_text v)) s h =
      write-Keeps sid uid k (λ sp. record sp { status = v }) (λ sp. refl) s h

  -- the writes of `update_space`
  edit-Keeps :
      (k : ℕ) (name d : Option Text) (st : Option StatusArg)
      → Keeps
          (Good sid uid)
          (set_name k name >> (set_description k d >> (set_status k st >> write_space k bumped)))
  edit-Keeps k name d st =
      let P : Session → Type 0 = Good sid uid in
      Keeps-bind P (set_name k name)
        (λ _. set_description k d >> (set_status k st >> write_space k bumped))
        (set_name-Keeps k name)
        (λ _.
          Keeps-bind P (set_description k d) (λ _. set_status k st >> write_space k bumped)
            (set_description-Keeps k d)
            (λ _.
              Keeps-bind P (set_status k st) (λ _. write_space k bumped) (set_status-Keeps k st)
                (λ _. write-Keeps sid uid k bumped (λ sp. refl))))

  pub update_space-Keeps :
      (k u : ℕ) (name d : Option Text) (st : Option StatusArg) (v : Option ℕ)
      → Keeps (Good sid uid) (update_space k u name d st v)
  unfolding update_space
  update_space-Keeps k u name d st v =
      let P : Session → Type 0 = Good sid uid in
      Keeps-bind P (verify_admin k u) _ (verify_admin-Keeps sid uid k u) (λ _.
        Keeps-bind P (load_space k) _ (load_space-Keeps sid uid k) (λ sp.
          Keeps-bind P (check_version sp v) _ (check_version-Keeps sid uid sp v)
            (λ _. edit-Keeps k name d st)))

  accept_member-Good :
      (sp : SharedSpace) (u : ℕ) (o : Option SpaceMember) (s : Session)
      → (o ≡ none → select (has_key sp.id u) s.members ≡ [])
      → count (has_id sp.id) s.spaces ≡ 1
      → Good sid uid s
      → Good sid uid (final (accept_member sp.id u o s))
  unfolding accept_member
  accept_member-Good sp u none s absent stored h =
      IsConsistent-add_member sid uid _ (absent refl) stored refl h
  accept_member-Good sp u (some m) s absent stored h = elim (Bool-cases (is_accepted m.status)) [
    | inl already ↦ rw already h
    | inr pending ↦ rw pending (IsConsistent-accept_member sid uid sp.id u h)
  ]

  -- the rest of `join_with_code`, once the code is found usable
  enter-Good :
      (sp : SharedSpace) (u : ℕ) (o : Option SpaceMember) (s : Session)
      → Good sid uid (final (accept_member sp.id u o s))
      → Good sid uid (
          final (
            (accept_member sp.id u o
                >> (get_space_detail sp.id u >>= λ d.
                    collect_event (member_joined sp.id sp.name u) >> pure d))
              s))
  enter-Good sp u o s h = go (accept_member sp.id u o s) h
    where
      go :
          (r : Outcome SpaceError (Unit {0}) × Session)
          → Good sid uid r.1
          → Good sid uid (
              final (
                after r.0
                  (λ _. get_space_detail sp.id u >>= λ d.
                    collect_event (member_joined sp.id sp.name u) >> pure d)
                  r.1))
      go (ok a, s') h' =
          Keeps-bind (Good sid uid) (get_space_detail sp.id u) _
            (get_space_detail-Keeps sid uid sp.id u) (λ d s h. h) s' h'
      go (err e, s') h' = h'

  pub join_with_code-Keeps :
      (now : ℕ) (code : Text) (u : ℕ) (s : Session)
      → IsValid s
      → Good sid uid (final (join_with_code now code u s))
  unfolding join_with_code
  join_with_code-Keeps now code u s h =
      elim (answer (select (has_code (upper (strip code))) s.spaces)) [
        | nobody e ↦ rw e (h sid uid)
        | many a b rest e ↦ rw e (h sid uid)
        | one sp e ↦ elim (Bool-cases (not (is_active sp.status) || is_expired sp now)) [
          | inl bad ↦ rw (e, bad) (h sid uid)
          | inr good ↦
              let stored : count (has_id sp.id) s.spaces ≡ 1 = omega (
                arith,
                (h sp.id u).one_space,
                count-of_select (has_code (upper (strip code))) (has_id sp.id) s.spaces e
                    (ground arith),
              ) in
              elim (answer (select (has_key sp.id u) s.members)) [
                | nobody k ↦
                    rw (e, good, k)
                      (enter-Good sp u none s
                        (accept_member-Good sp u none s (λ _. k) stored (h sid uid)))
                | many a b rest k ↦ rw (e, good, k) (h sid uid)
                | one m k ↦
                    rw (e, good, k)
                      (enter-Good sp u (some m) s
                        (accept_member-Good sp u (some m) s (λ n. ground arith) stored (h sid uid)))
              ]
        ]
      ]
