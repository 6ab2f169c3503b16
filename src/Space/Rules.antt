-- ===== src/Space/Rules.antt =====
-- What the role checks and the queries by key answer: each reads the session and leaves it alone.
use finvo.Prelude.{
  ℕ, ◌≡◌, refl, ap, Bool, true, ◌&&◌, inl, inr, Option, none, some, List, [], ◌∷◌, arith,
  Bool-cases,
}
use finvo.Prelude.Lists.{select, select-select}
use finvo.Prelude.Exec.{Outcome, ok, err, final}
use finvo.Space.Model.{
  SpaceMember, SharedSpace, Session, SpaceError, not_a_member, need_admin, need_owner,
  multiple_rows, is_accepted, is_owner, is_admin, has_id, has_key,
}
use finvo.Space.Service.{load_space, check_version}
use finvo.Space.Access.{verify_membership, verify_admin, verify_owner}

-- The answers that a query can have.
pub data Answer {A : Type 0} (rows : List A) : Type 0 where
  nobody : rows ≡ [] → Answer rows
  one : (x : A) → rows ≡ x ∷ [] → Answer rows
  many : (x y : A) (rest : List A) → rows ≡ x ∷ y ∷ rest → Answer rows

pub answer : {A : Type 0} (rows : List A) → Answer rows
answer [] = nobody refl
answer (x ∷ []) = one x refl
answer (x ∷ y ∷ rest) = many x y rest refl

-- the query of `verify_membership`
abbrev pub is_member : ℕ → ℕ → SpaceMember → Bool
is_member k u m = has_key k u m && is_accepted m.status

-- A check passes with the caller's accepted row, of which `Q` holds, or it raises.
pub data Checked (k u : ℕ) (s : Session) (Q : SpaceMember → Bool)
    (result : Outcome SpaceError SpaceMember × Session) : Type 0 where
  passes :
      (x : SpaceMember)
      → result ≡ (ok x, s)
      → select (is_member k u) s.members ≡ x ∷ []
      → Q x ≡ true
      → Checked k u s Q result
  raises : (e : SpaceError) → result ≡ (err e, s) → Checked k u s Q result

module _ (k u : ℕ) (s : Session) where
  pub verify_membership-cases : Checked k u s (λ _. true) (verify_membership k u s)
  unfolding verify_membership
  verify_membership-cases = elim (answer (select (is_member k u) s.members)) [
    | nobody e ↦ raises not_a_member (rw e)
    | one x e ↦ passes x (rw e) e refl
    | many x y rest e ↦ raises multiple_rows (rw e)
  ]

  pub verify_admin-cases : Checked k u s (λ m. is_admin m.role) (verify_admin k u s)
  unfolding verify_admin
  verify_admin-cases = elim (verify_membership-cases) [
    | raises e r ↦ raises e (rw r)
    | passes x r found t ↦ elim (Bool-cases (is_admin x.role)) [
      | inl a ↦ passes x (rw (r, a)) found a
      | inr n ↦ raises need_admin (rw (r, n))
    ]
  ]

  pub verify_owner-cases : Checked k u s (λ m. is_owner m.role) (verify_owner k u s)
  unfolding verify_owner
  verify_owner-cases = elim (verify_membership-cases) [
    | raises e r ↦ raises e (rw r)
    | passes x r found t ↦ elim (Bool-cases (is_owner x.role)) [
      | inl a ↦ passes x (rw (r, a)) found a
      | inr n ↦ raises need_owner (rw (r, n))
    ]
  ]

  -- The accepted row of a member is the row that the primary key finds.
  pub same_row :
      (x y : SpaceMember)
      → select (is_member k u) s.members ≡ x ∷ []
      → select (has_key k u) s.members ≡ y ∷ []
      → x ≡ y
  unfolding select
  same_row x y found key =
      let q : SpaceMember → Bool = λ m. is_accepted m.status in
      let e : select (is_member k u) s.members ≡ select q (select (has_key k u) s.members) =
        select-select (has_key k u) q s.members in
      ground (arith, e, ap (select q) key)

pub load_space-reads : (k : ℕ) (s : Session) → final (load_space k s) ≡ s
unfolding load_space
load_space-reads k s = elim (answer (select (has_id k) s.spaces)) [
  | nobody e ↦ rw e
  | one x e ↦ rw e
  | many x y rest e ↦ rw e
]

pub check_version-reads :
    (sp : SharedSpace) (v : Option ℕ) (s : Session) → final (check_version sp v s) ≡ s
unfolding check_version
check_version-reads sp none s = refl
check_version-reads sp (some v) s = refl
