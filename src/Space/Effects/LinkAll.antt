-- ===== src/Space/Effects/LinkAll.antt =====
-- The loop that links the transactions of a batch to a space (`record_shared_transactions` of
-- server/app/services/shared_space_transaction_service.py).
use finvo.Prelude.{
  true, false, ◌++◌, Bool, List, ℕ, ◌≡◌, ◌∙◌, refl, sym, Option, none, some, [], ◌∷◌, ◌==◌,
  Bool-cases, Option-cases, inl, inr, arith,
}
use finvo.Prelude.Lists.{select, select-append}
use finvo.Prelude.Exec.{◌>>=◌, pure, err, after, ok, Outcome, final}
use finvo.Ledger.Model.{Transaction}
use finvo.Space.Model.{SpaceError, SpaceTransaction, Session, has_id}
use finvo.Space.Rules.{nobody, one, many, answer, passes, raises, verify_membership-cases}
use finvo.Space.Effects.Linking.{add_transaction_to_space-once}
use finvo.Space.Linking.{
  is_app_exception, tolerated, link_all, is_link, linked, announce, insert_link,
  add_transaction_to_space,
}

-- a single link of the transaction to the space
abbrev pub HasLink : ℕ → ℕ → Session → Type 0
HasLink k t s = (l : SpaceTransaction) × (select (is_link k t) s.links ≡ l ∷ [])

abbrev pub AllLinked : ℕ → List ℕ → Session → Type 0
AllLinked k [] s = Unit
AllLinked k (t ∷ ts) s = HasLink k t s × AllLinked k ts s

abbrev row : ℕ → ℕ → ℕ → SpaceTransaction
row k t added_by = record { space_id = k; transaction_id = t; added_by_user_uuid = added_by }

-- A new link leaves the single one of any transaction single.
linked-HasLink :
    (k t t' added_by : ℕ) (s : Session)
    → select (is_link k t') s.links ≡ []
    → HasLink k t s
    → HasLink k t (linked (row k t' added_by) s)
unfolding select
linked-HasLink k t t' added_by s free (l, alone) =
    elim (Bool-cases (is_link k t (row k t' added_by))) [
      | inl same ↦
          let e : t' ≡ t = ground arith in
          let none_there : l ∷ [] ≡ [] = sym alone ∙ (rw e at free) in cc
      | inr other ↦
          (l, rw (select-append (is_link k t) s.links (row k t' added_by ∷ []), alone, other) refl)
    ]

module _ (transactions : ℕ → Option Transaction) (k u t t' : ℕ) (s : Session)
    (h : HasLink k t s) where
  insert_link-HasLink :
      (tx : Transaction) (rival : Option ℕ)
      → select (is_link k t') s.links ≡ []
      → HasLink k t (final (insert_link k u tx t' rival s))
  unfolding insert_link announce
  insert_link-HasLink tx none free = elim (answer (select (has_id k) s.spaces)) [
    | nobody e ↦ rw e (linked-HasLink k t t' u s free h)
    | one sp e ↦ rw e (linked-HasLink k t t' u s free h)
    | many a b rest e ↦ rw e (linked-HasLink k t t' u s free h)
  ]
  insert_link-HasLink tx (some other) free = linked-HasLink k t t' other s free h

  add-HasLink :
      (rival : Option ℕ)
      → HasLink k t (final (add_transaction_to_space transactions rival k u t' s))
  unfolding add_transaction_to_space
  add-HasLink rival = elim (verify_membership-cases k u s) [
    | raises e f ↦ rw f h
    | passes x f joined _ ↦ rw f (elim (Option-cases (transactions t')) [
      | inl missing ↦ rw missing h
      | inr (tx, stored) ↦ rw stored (elim (Bool-cases (tx.user_uuid == u)) [
        | inl own ↦ rw own (elim (answer (select (is_link k t') s.links)) [
          | nobody e ↦ rw e (insert_link-HasLink tx rival e)
          | one l e ↦ rw e h
          | many a b rest e ↦ rw e h
        ])
        | inr foreign ↦ rw foreign h
      ])
    ])
  ]

abbrev pub Links : Type 0
Links = Outcome SpaceError (List ℕ) × Session

-- the rest of the loop after its first link
abbrev with_rest : List ℕ → Links → Links
with_rest failed (ok rest, s) = (ok (failed ++ rest), s)
with_rest failed (err e, s) = (err e, s)

module _ (transactions : ℕ → Option Transaction) (rival : ℕ → Option ℕ) (k u : ℕ) where
  abbrev pub run : List ℕ → Session → Links
  run ids s = link_all transactions rival k u ids s

  abbrev with_first : List ℕ → Links → Links
  with_first ids (ok failed, s) = with_rest failed (run ids s)
  with_first ids (err e, s) = (err e, s)

  abbrev first_link : ℕ → Session → Outcome SpaceError Bool × Session
  first_link id s = add_transaction_to_space transactions (rival id) k u id s

  link_all-cons :
      (id : ℕ) (ids : List ℕ) (s : Session)
      → run (id ∷ ids) s ≡ with_first ids (tolerated id (first_link id s).0 (first_link id s).1)
  unfolding link_all
  link_all-cons id ids s = go (tolerated id (first_link id s).0 (first_link id s).1)
    where
      last :
          (failed : List ℕ) (y : Links)
          → after y.0 (λ rest. pure (failed ++ rest)) y.1 ≡ with_rest failed y
      last failed (ok rest, t) = refl
      last failed (err e, t) = refl

      go :
          (x : Links)
          → after x.0
              (λ failed. link_all transactions rival k u ids >>= λ rest. pure (failed ++ rest))
              x.1
            ≡ with_first ids x
      go (ok failed, t) = last failed (link_all transactions rival k u ids t)
      go (err e, t) = refl

  final-with_rest : (failed : List ℕ) (y : Links) → final (with_rest failed y) ≡ final y
  final-with_rest failed (ok rest, s) = refl
  final-with_rest failed (err e, s) = refl

  final-tolerated :
      (id : ℕ) (x : Outcome SpaceError Bool × Session) → final (tolerated id x.0 x.1) ≡ final x
  final-tolerated id (ok already, s) = refl
  final-tolerated id (err e, s) = elim (Bool-cases (is_app_exception e)) [
    | inl expected ↦ rw expected refl
    | inr other ↦ rw other refl
  ]

  link_all-HasLink :
      (t : ℕ) (ids : List ℕ) (s : Session) → HasLink k t s → HasLink k t (final (run ids s))
  unfolding link_all
  link_all-HasLink t [] s h = h
  link_all-HasLink t (id ∷ ids) s h = rw (link_all-cons id ids s) (
      go (tolerated id (first_link id s).0 (first_link id s).1)
        (rw (final-tolerated id (first_link id s))
          (add-HasLink transactions k u t id s h (rival id)))
        (link_all-HasLink t ids))
    where
      go :
          (x : Links)
          → HasLink k t (final x)
          → ((s' : Session) → HasLink k t s' → HasLink k t (final (run ids s')))
          → HasLink k t (final (with_first ids x))
      go (ok failed, s') h' ih = rw (final-with_rest failed (run ids s')) (ih s' h')
      go (err e, s') h' ih = h'

  with_rest-empty :
      (failed : List ℕ) (y : Links) → (with_rest failed y).0 ≡ ok [] → (failed ≡ []) × (y.0 ≡ ok [])
  with_rest-empty [] (ok rest, s) h = (refl, h)
  with_rest-empty (f ∷ failed) (ok rest, s) h = (cc, cc)
  with_rest-empty failed (err e, s) h = (cc, h)

  tolerated-failed :
      (id : ℕ) (ids : List ℕ) (e : SpaceError) (s : Session)
      → (with_first ids (tolerated id (err e) s)).0 ≡ ok []
      → true ≡ false
  tolerated-failed id ids e s h = elim (Bool-cases (is_app_exception e)) [
    | inl expected ↦
        let none_failed = with_rest-empty (id ∷ []) (run ids s) (rw expected at h) in
        let one_failed = none_failed.0 in cc
    | inr other ↦ let raised = rw other at h in cc
  ]

  -- A loop that reports no failed link had none at first, and goes on from there.
  with_first-empty :
      (id : ℕ) (ids : List ℕ) (x : Outcome SpaceError Bool × Session)
      → (with_first ids (tolerated id x.0 x.1)).0 ≡ ok []
      → ((already : Bool) × (x.0 ≡ ok already))
        × ((run ids (final x)).0 ≡ ok [])
        × (final (with_first ids (tolerated id x.0 x.1)) ≡ final (run ids (final x)))
  with_first-empty id ids (ok already, s) h =
      ((already, refl), (with_rest-empty [] (run ids s) h).1, final-with_rest [] (run ids s))
  with_first-empty id ids (err e, s) h =
      let absurd_link = tolerated-failed id ids e s h in ((false, cc), cc, cc)

  -- After a loop that reports no failed link every transaction has a single one.
  pub link_all-AllLinked :
      (ids : List ℕ) (s : Session) → (run ids s).0 ≡ ok [] → AllLinked k ids (final (run ids s))
  link_all-AllLinked [] s h = tt
  link_all-AllLinked (id ∷ ids) s h =
      let x = first_link id s in
      let (returned, rest, left) = with_first-empty id ids x (rw (link_all-cons id ids s) at h) in
      let there =
        add_transaction_to_space-once transactions (rival id) (rival id) k u id s returned.0
          returned.1 in
      rw (link_all-cons id ids s, left)
        (
          link_all-HasLink id ids (final x) (there.0.link, there.0.alone),
          link_all-AllLinked ids (final x) rest,
        )
