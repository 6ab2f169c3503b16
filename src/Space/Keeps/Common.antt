-- ===== src/Space/Keeps/Common.antt =====
-- The steps that the operations share keep the invariant.
use finvo.Prelude.{ℕ, ◌≡◌, refl, true, Option, arith}
use finvo.Prelude.Exec.{pure, ◌>>◌, Keeps, Keeps-bind}
use finvo.Space.Model.{LeaveReason, SharedSpace, Session}
use finvo.Space.Access.{verify_admin, verify_owner}
use finvo.Space.Service.{
  get_space_detail, joined_spaces, load_space, bumped, write_space, check_version,
  bump_space_version,
}
use finvo.Space.Members.{notify_left}
use finvo.Space.Rules.{
  nobody, one, many, answer, passes, raises, verify_membership-cases, verify_admin-cases,
  verify_owner-cases, load_space-reads, check_version-reads,
}
use finvo.Space.Invariant.{IsConsistent, IsConsistent-write_space}

module _ (sid uid : ℕ) where
  abbrev pub Good : Session → Type 0
  Good s = IsConsistent sid uid s.spaces s.members

  pub verify_admin-Keeps : (k u : ℕ) → Keeps Good (verify_admin k u)
  verify_admin-Keeps k u s h = elim (verify_admin-cases k u s) [
    | passes x r found q ↦ rw r h
    | raises e r ↦ rw r h
  ]

  pub verify_owner-Keeps : (k u : ℕ) → Keeps Good (verify_owner k u)
  verify_owner-Keeps k u s h = elim (verify_owner-cases k u s) [
    | passes x r found q ↦ rw r h
    | raises e r ↦ rw r h
  ]

  pub load_space-Keeps : (k : ℕ) → Keeps Good (load_space k)
  load_space-Keeps k s h = rw (load_space-reads k s) h

  pub check_version-Keeps : (sp : SharedSpace) (v : Option ℕ) → Keeps Good (check_version sp v)
  check_version-Keeps sp v s h = rw (check_version-reads sp v s) h

  pub write-Keeps :
      (k : ℕ) (f : SharedSpace → SharedSpace)
      → ((sp : SharedSpace) → (f sp).id ≡ sp.id)
      → Keeps Good (write_space k f)
  write-Keeps k f keep s h = IsConsistent-write_space sid uid k f keep h

  pub bump-Keeps : (k : ℕ) → Keeps Good (bump_space_version k)
  unfolding bump_space_version
  bump-Keeps k =
      Keeps-bind Good (load_space k) (λ _. write_space k bumped) (load_space-Keeps k)
        (λ _. write-Keeps k bumped (λ sp. refl))

  pub notify-Keeps : (k u : ℕ) (r : LeaveReason) → Keeps Good (notify_left k u r)
  unfolding notify_left
  notify-Keeps k u r s h = ground arith

  -- the version bump and the notification at the end of a change of members
  pub tail-Keeps :
      (k u : ℕ) (r : LeaveReason)
      → Keeps Good (bump_space_version k >> (notify_left k u r >> pure true))
  tail-Keeps k u r =
      Keeps-bind Good (bump_space_version k) (λ _. notify_left k u r >> pure true) (bump-Keeps k)
        (λ _.
          Keeps-bind Good (notify_left k u r) (λ _. pure true) (notify-Keeps k u r) (λ _ s h. h))

  pub get_space_detail-Keeps : (k u : ℕ) → Keeps Good (get_space_detail k u)
  unfolding get_space_detail
  get_space_detail-Keeps k u s h = elim (verify_membership-cases k u s) [
    | raises e r ↦ rw r h
    | passes x r found q ↦ rw r (elim (answer (joined_spaces k u s)) [
      | nobody e ↦ rw e h
      | one sp e ↦ rw e h
      | many a b rest e ↦ rw e h
    ])
  ]
