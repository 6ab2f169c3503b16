-- ===== src/Space/Effects/Linking.antt =====
-- Links of transactions to spaces (`add_transaction_to_space` of
-- server/app/services/shared_space_transaction_service.py).
use finvo.Prelude.{
  ℕ, ◌≡◌, refl, Bool, true, Option, none, some, [], ◌∷◌, ◌==◌, ==_refl, Bool-cases, Option-cases,
  inl, inr,
}
use finvo.Prelude.Lists.{select, select-append}
use finvo.Prelude.Exec.{ok, final, Ensures, of_ensures}
use finvo.Ledger.Model.{Transaction}
use finvo.Space.Model.{SpaceMember, SpaceTransaction, Session, has_id}
use finvo.Space.Access.{verify_membership}
use finvo.Space.Rules.{
  nobody, one, many, answer, passes, raises, verify_membership-cases, is_member,
}
use finvo.Space.Linking.{is_link, linked, announce, insert_link, link_own, add_transaction_to_space}

-- The session `s` has a single link of the transaction `t` to the space `k`, and `u`, an accepted
-- member of the space, owns the transaction.
pub record IsLinked (transactions : ℕ → Option Transaction) (k u t : ℕ) (s : Session) : Type 0 where
  pub member : SpaceMember
  pub tx : Transaction
  pub link : SpaceTransaction
  pub joined : select (is_member k u) s.members ≡ member ∷ []
  pub stored : transactions t ≡ some tx
  pub own : (tx.user_uuid == u) ≡ true
  pub alone : select (is_link k t) s.links ≡ link ∷ []

linked-alone :
    (k t added_by : ℕ) (s : Session)
    → select (is_link k t) s.links ≡ []
    → select
        (is_link k t)
        (linked record { space_id = k; transaction_id = t; added_by_user_uuid = added_by } s).links
      ≡ record { space_id = k; transaction_id = t; added_by_user_uuid = added_by } ∷ []
unfolding select
linked-alone k t added_by s free =
    let l : SpaceTransaction = record {
      space_id = k;
      transaction_id = t;
      added_by_user_uuid = added_by;
    } in
    rw (select-append (is_link k t) s.links (l ∷ []), free, ==_refl k, ==_refl t) refl

module _ (transactions : ℕ → Option Transaction) (k u t : ℕ) (s : Session) {x : SpaceMember}
    {tx : Transaction} (joined : select (is_member k u) s.members ≡ x ∷ [])
    (stored : transactions t ≡ some tx) (own : (tx.user_uuid == u) ≡ true) where
  insert_link-IsLinked :
      (rival : Option ℕ)
      → select (is_link k t) s.links ≡ []
      → Ensures (λ _. IsLinked transactions k u t) (insert_link k u tx t rival s)
  unfolding insert_link announce
  insert_link-IsLinked none free = elim (answer (select (has_id k) s.spaces)) [
    | nobody e ↦ rw e record {
      member = x;
      tx = tx;
      link = record { space_id = k; transaction_id = t; added_by_user_uuid = u };
      joined = joined;
      stored = stored;
      own = own;
      alone = linked-alone k t u s free;
    }
    | one sp e ↦ rw e record {
      member = x;
      tx = tx;
      link = record { space_id = k; transaction_id = t; added_by_user_uuid = u };
      joined = joined;
      stored = stored;
      own = own;
      alone = linked-alone k t u s free;
    }
    | many a b rest e ↦ rw e tt
  ]
  insert_link-IsLinked (some other) free = record {
    member = x;
    tx = tx;
    link = record { space_id = k; transaction_id = t; added_by_user_uuid = other };
    joined = joined;
    stored = stored;
    own = own;
    alone = linked-alone k t other s free;
  }

  link_own-IsLinked :
      (rival : Option ℕ) → Ensures (λ _. IsLinked transactions k u t) (link_own rival k u t tx s)
  link_own-IsLinked rival = rw own (elim (answer (select (is_link k t) s.links)) [
    | nobody e ↦ rw e (insert_link-IsLinked rival e)
    | one l e ↦ rw e record {
      member = x;
      tx = tx;
      link = l;
      joined = joined;
      stored = stored;
      own = own;
      alone = e;
    }
    | many a b rest e ↦ rw e tt
  ])

module _ (transactions : ℕ → Option Transaction) (rival : Option ℕ) (k u t : ℕ) (s : Session) where
  add-IsLinked :
      Ensures
        (λ _. IsLinked transactions k u t)
        (add_transaction_to_space transactions rival k u t s)
  unfolding add_transaction_to_space
  add-IsLinked = elim (verify_membership-cases k u s) [
    | raises e f ↦ rw f tt
    | passes x f joined _ ↦ rw f (elim (Option-cases (transactions t)) [
      | inl missing ↦ rw missing tt
      | inr (tx, stored) ↦ rw stored (elim (Bool-cases (tx.user_uuid == u)) [
        | inl own ↦ link_own-IsLinked transactions k u t s joined stored own rival
        | inr foreign ↦ rw foreign tt
      ])
    ])
  ]

  add-again :
      IsLinked transactions k u t s
      → add_transaction_to_space transactions rival k u t s ≡ (ok true, s)
  unfolding add_transaction_to_space verify_membership
  add-again h = rw (h.joined, h.stored, h.own, h.alone) refl

-- A call of `add_transaction_to_space` that returns leaves a single link of the transaction to the
-- space. The caller `u` is then an accepted member of the space and owns the transaction, and the
-- next such call answers that the link is there and changes nothing. Rows that other workers insert
-- meanwhile do not matter.
pub add_transaction_to_space-once :
    (transactions : ℕ → Option Transaction) (rival rival' : Option ℕ) (k u t : ℕ) (s : Session)
    (already : Bool)
    → (add_transaction_to_space transactions rival k u t s).0 ≡ ok already
    → let s' = final (add_transaction_to_space transactions rival k u t s) in
      (IsLinked transactions k u t s')
      × (add_transaction_to_space transactions rival' k u t s' ≡ (ok true, s'))
add_transaction_to_space-once transactions rival rival' k u t s already h =
    let s' : Session = final (add_transaction_to_space transactions rival k u t s) in
    let there : IsLinked transactions k u t s' =
      of_ensures (λ _. IsLinked transactions k u t)
        (add_transaction_to_space transactions rival k u t s) already
        (add-IsLinked transactions rival k u t s) h in
    (there, add-again transactions rival' k u t s' there)
