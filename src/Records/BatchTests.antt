-- ===== src/Records/BatchTests.antt =====
-- Batches of a lunch, an item without an amount and a coffee, and a batch that changes an account.
use finvo.Prelude.{◌||◌, ℕ, ◌≡◌, refl, true, false, none, some, [], ◌∷◌, ◌++◌, ◌==◌, if◌then◌else◌}
use finvo.Prelude.Int.{abs, pos}
use finvo.Prelude.Lists.{select}
use finvo.Prelude.Text.{Text, codes, upper, or_text, text_eq}
use finvo.Prelude.Exec.{ok, err, final}
use finvo.Ledger.Model.{
  expense, other_type, cleared, FinancialAccount, Transaction, Rates, times, minus, signed, moved,
}
use finvo.Ledger.Convert.{convert_to_user_base, convert_snapshot_to_currency}
use finvo.Ledger.Effects.{get_account, convert_snapshot_amount, apply_account_balance_effect}
use finvo.Records.Store.{Books}
use finvo.Records.Creation.{Desk, Surroundings, CreateError, is_alpha}
use finvo.Records.Batch.{Batch, Item, create_batch_transactions, update_batch_transactions_account}
use finvo.Records.Laws.Batches.{accepted, without_failed, create_batch_transactions-accepted}
use finvo.Records.Laws.Resent.{create_batch_transactions-replays}
use finvo.Records.Laws.Aborts.{create_batch_transactions-aborts}

abbrev cny : Text
cny = codes "CNY"

abbrev usd : Text
usd = codes "USD"

-- no live rates
abbrev rates : Rates
rates = record { live = λ from to x. none; quot = λ a b. a; prod = λ a b. a }

abbrev site : ℕ → Surroundings
site uuid = record {
  rates = rates;
  user_base = λ u. cny;
  rate = λ from to. none;
  one = pos 1;
  quantize = λ a. a;
  new_uuid = uuid;
  rival = none;
}

abbrev account : Text → FinancialAccount
account currency = record {
  user_uuid = 9;
  currency_code = currency;
  initial_balance = pos 1000;
  current_balance = pos 1000;
}

abbrev desk : Desk
desk = record {
  books = record {
    entries = λ k. none;
    accounts = λ k. if k == 1 then some (account cny) else none;
    active = λ k. true;
  };
  keyed = [];
}

abbrev batch : Batch
batch = record { user_uuid = 9; source_account_id = some 1; target_account_id = none }

abbrev lunch : Item
lunch = record {
  amount = some (pos 100);
  tx_type = expense;
  currency = none;
  idempotency_key = some (codes "k1");
  site = site 20;
}

abbrev blank : Item
blank = record lunch { amount = none; idempotency_key = none }

abbrev coffee : Item
coffee = record lunch {
  amount = some (pos 30);
  idempotency_key = some (codes "k2");
  site = site 21;
}

abbrev typo : Item
typo = record lunch { tx_type = other_type (codes "SPEND"); idempotency_key = none }

-- The item without an amount is reported, and the others are booked.
mixed :
    (create_batch_transactions batch (lunch ∷ blank ∷ coffee ∷ []) desk).0
    ≡ ok record { transactions = 20 ∷ 21 ∷ []; failed = 1 ∷ []; replayed_count = 0 }
unfolding create_batch_transactions select upper or_text text_eq apply_account_balance_effect
    convert_snapshot_amount convert_snapshot_to_currency
mixed = refl

create_batch_transactions-accepted_example :
    create_batch_transactions batch (accepted batch (lunch ∷ blank ∷ coffee ∷ []) desk) desk
    ≡ without_failed (create_batch_transactions batch (lunch ∷ blank ∷ coffee ∷ []) desk)
create_batch_transactions-accepted_example =
    create_batch_transactions-accepted batch (lunch ∷ blank ∷ coffee ∷ []) desk

both_booked :
    (create_batch_transactions batch (lunch ∷ coffee ∷ []) desk).0
    ≡ ok record { transactions = 20 ∷ 21 ∷ []; failed = []; replayed_count = 0 }
unfolding create_batch_transactions select upper or_text text_eq apply_account_balance_effect
    convert_snapshot_amount convert_snapshot_to_currency
both_booked = refl

create_batch_transactions-replays_example :
    let s' = final (create_batch_transactions batch (lunch ∷ coffee ∷ []) desk) in
    create_batch_transactions batch (lunch ∷ coffee ∷ []) s'
    ≡ (ok record { transactions = []; failed = []; replayed_count = 2 }, s')
create_batch_transactions-replays_example =
    create_batch_transactions-replays batch batch (lunch ∷ coffee ∷ []) (lunch ∷ coffee ∷ [])
      (codes "k1" ∷ codes "k2" ∷ [])
      record { transactions = 20 ∷ 21 ∷ []; failed = []; replayed_count = 0 } desk refl refl refl
      both_booked refl

create_batch_transactions-aborts_example :
    (e : CreateError) × ((create_batch_transactions batch
        ((lunch ∷ []) ++ typo ∷ coffee ∷ [])
        desk).0
      ≡ err e)
unfolding upper or_text is_alpha convert_to_user_base text_eq
create_batch_transactions-aborts_example =
    create_batch_transactions-aborts batch typo (pos 100) (pos 100, pos 1) (codes "SPEND") refl refl
      refl refl refl refl (lunch ∷ []) (coffee ∷ []) desk

-- an expense in dollars on an account in dollars, and an account in euros
abbrev dollars : Transaction
dollars = record {
  uuid = 7;
  user_uuid = 9;
  tx_type = expense;
  status = cleared;
  amount = pos 700;
  amount_original = pos 100;
  currency = usd;
  exchange_rate = none;
  source_account_id = some 1;
  target_account_id = none;
}

abbrev books : Books
books = record {
  entries = λ k. if k == 7 then some (record { tx = dollars; is_system = false }) else none;
  accounts = λ k.
      if k == 1 then some (account usd) else if k == 2 then some (account (codes "EUR")) else none;
  active = λ k. true;
}

abbrev two_entries : Books
two_entries = record books {
  entries =
      λ k. if k == 7 || k == 8 then some (record { tx = dollars; is_system = false }) else none;
}

-- Of two items that fail, the second drops what the first has taken back from the account.
last_failure_stays :
    (update_batch_transactions_account rates cny 9 (some 2) (7 ∷ 8 ∷ []) two_entries).1.accounts 1
    ≡ some (moved (account usd) (signed (times minus minus) (pos 100)))
unfolding update_batch_transactions_account apply_account_balance_effect get_account
    convert_snapshot_amount convert_snapshot_to_currency upper or_text text_eq abs
last_failure_stays = refl
