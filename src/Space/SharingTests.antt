-- ===== src/Space/SharingTests.antt =====
-- Transactions that are recorded for a space with a single member.
use finvo.Ledger.Effects.{apply_account_balance_effect}
use finvo.Prelude.{ℕ, ◌≡◌, refl, true, false, none, some, [], ◌∷◌}
use finvo.Prelude.Int.{pos}
use finvo.Prelude.Lists.{select}
use finvo.Prelude.Text.{text_eq, or_text, upper, codes}
use finvo.Prelude.Exec.{ok, final}
use finvo.Ledger.Model.{expense}
use finvo.Records.Creation.{Submission, Surroundings}
use finvo.Records.Batch.{Batch, BatchResult, Item}
use finvo.Space.Model.{owner, accepted, active}
use finvo.Space.Recording.{Shared, create_transaction_for_space, record_shared_transactions}
use finvo.Space.Effects.LinkAll.{AllLinked}
use finvo.Space.Effects.Recording.{record_shared_transactions-links}

abbrev site : ℕ → Surroundings
site uuid = record {
  rates = record { live = λ from to x. none; quot = λ a b. a; prod = λ a b. a };
  user_base = λ u. codes "CNY";
  rate = λ from to. none;
  one = pos 1;
  quantize = λ a. a;
  new_uuid = uuid;
  rival = none;
}

abbrev batch : Batch
batch = record { user_uuid = 3; source_account_id = none; target_account_id = none }

abbrev item : ℕ → Item
item uuid = record {
  amount = some (pos 60);
  tx_type = expense;
  currency = none;
  idempotency_key = none;
  site = site uuid;
}

abbrev blank : Item
blank = record (item 80) { amount = none }

abbrev start : Shared
start = record {
  desk = record {
    books = record { entries = λ k. none; accounts = λ k. none; active = λ k. true };
    keyed = [];
  };
  session = record {
    spaces =
        record {
          id = 5;
          name = codes "Home";
          creator_uuid = 3;
          status = active;
          description = none;
          base_currency = none;
          invite_code = none;
          invite_code_expires_at = none;
          version = 1;
        }
        ∷ [];
    members = record { space_id = 5; user_uuid = 3; role = owner; status = accepted } ∷ [];
    links = [];
    events = [];
  };
}

abbrev both : BatchResult
both = record { transactions = 71 ∷ 72 ∷ []; failed = []; replayed_count = 0 }

two_linked :
    (record_shared_transactions batch (item 71 ∷ item 72 ∷ []) 5 (λ id. none) start).0
    ≡ ok (both, [])
unfolding record_shared_transactions upper or_text text_eq select
two_linked = refl

record_shared_transactions-links_example :
    AllLinked 5
      (71 ∷ 72 ∷ [])
      (final
        (record_shared_transactions batch (item 71 ∷ item 72 ∷ []) 5 (λ id. none) start)).session
record_shared_transactions-links_example =
    record_shared_transactions-links batch (item 71 ∷ item 72 ∷ []) 5 (λ id. none) start both
      two_linked refl

-- One failed item keeps the other one out of the space, and no failed link is reported.
left_out :
    let r = record_shared_transactions batch (item 71 ∷ blank ∷ []) 5 (λ id. none) start in
    (r.0 ≡ ok (record { transactions = 71 ∷ []; failed = 1 ∷ []; replayed_count = 0 }, []))
    × ((final r).session.links ≡ [])
unfolding record_shared_transactions upper or_text text_eq
left_out = (refl, refl)

-- A single one is linked, or its failed link reported.
one_linked :
    let q : Submission = record {
      user_uuid = 3;
      amount = pos 60;
      tx_type = expense;
      currency = codes "CNY";
      source_account_id = none;
      target_account_id = none;
      idempotency_key = none;
    } in
    ((create_transaction_for_space (site 71) q 5 none start).0 ≡ ok (71, false))
    × ((create_transaction_for_space (site 71) q 6 none start).0 ≡ ok (71, true))
unfolding create_transaction_for_space upper text_eq apply_account_balance_effect select
one_linked = (refl, refl)
