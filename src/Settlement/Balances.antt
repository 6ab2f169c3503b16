-- ===== src/Settlement/Balances.antt =====
-- The balance of each member (the first part of `get_settlement`). An amount is counted in units of
-- a decimal place that is fine enough for every `Decimal` that occurs. A sum or difference is rounded
-- to the digits that `Decimal` keeps (28): `fit` is this rounding, of the absolute value.
use finvo.Prelude.{
  suc, ℕ, ◌+◌, Bool, true, false, not, ◌&&◌, ◌||◌, Option, none, some, List, [], ◌∷◌, ◌==◌,
  if◌then◌else◌,
}
use finvo.Prelude.Int.{negsuc, ℤ, pos, ◌+ℤ◌, ◌-ℤ◌, neg}
use finvo.Prelude.Text.{Text, upper, or_text, text_eq}
use finvo.Space.Model.{SpaceTransaction}
use finvo.Ledger.Model.{TxType, expense, TxStatus, Rates}
use finvo.Ledger.Expected.{is_cleared}

-- what the settlement reads of a `Transaction`; `is_system` is the test of its source
pub record Spend : Type 0 where
  pub tx_type : TxType
  pub status : TxStatus
  pub is_system : Bool
  pub amount : ℤ
  pub amount_original : Option ℤ
  pub currency : Option Text

abbrev pub Balances : Type 0
Balances = List (ℕ × ℤ)

-- a sum, rounded
abbrev pub rounded : (ℕ → ℕ) → ℤ → ℤ
rounded fit (pos n) = pos (fit n)
rounded fit (negsuc n) = neg (pos (fit (suc n)))

-- `balances[k] += x` on a `defaultdict(Decimal)`, which keeps the order of insertion
unfoldable pub bump : (ℕ → ℕ) → ℕ → ℤ → Balances → Balances
bump fit k x [] = (k, rounded fit (pos 0 +ℤ x)) ∷ []
bump fit k x ((j, b) ∷ rest) =
    let bumped = bump fit k x rest in
    if j == k then (j, rounded fit (b +ℤ x)) ∷ rest else (j, b) ∷ bumped

-- `for member in members: if member.user_uuid != payer_uuid: ...`
unfoldable pub charge_others : (ℕ → ℕ) → ℕ → ℤ → List ℕ → Balances → Balances
charge_others fit payer share [] balances = balances
charge_others fit payer share (m ∷ rest) balances =
    charge_others fit payer share rest
      (if m == payer then balances else bump fit m (neg share) balances)

unfoldable pub split : (ℕ → ℕ) → ℕ → ℤ → ℤ → List ℕ → Balances → Balances
split fit payer amount share members balances =
    charge_others fit payer share members (bump fit payer (rounded fit (amount -ℤ share)) balances)

abbrev pub is_expense : TxType → Bool
is_expense expense = true
is_expense _ = false

-- `tx and tx.type == "EXPENSE"`, cleared, and not a SYSTEM entry
abbrev pub counts : Option Spend → Bool
counts none = false
counts (some tx) = is_expense tx.tx_type && is_cleared tx.status && not tx.is_system

unfoldable pub elem : ℕ → List ℕ → Bool
elem k [] = false
elem k (j ∷ rest) = j == k || elem k rest

abbrev pub original_amount : Spend → ℤ
original_amount tx = elim tx.amount_original [ none ↦ tx.amount | some o ↦ o ]

-- the original amount in the base currency of the space; `none` if there is no rate
unfoldable pub amount_in_base : Rates → Text → Spend → Option ℤ
amount_in_base rates base tx =
    let tx_currency = upper (or_text tx.currency base) in
    if text_eq tx_currency base
    then some (original_amount tx)
    else rates.live tx_currency base (original_amount tx)

pub record Tally : Type 0 where
  pub balances : Balances
  pub total_amount : ℤ
  pub excluded_count : ℕ
  pub excluded_amount : ℤ

-- an expense of somebody who has left
abbrev pub exclude : (ℕ → ℕ) → ℤ → Tally → Tally
exclude fit amount t = record t {
  excluded_count = t.excluded_count + 1;
  excluded_amount = rounded fit (t.excluded_amount +ℤ amount);
}

-- an expense of a member, shared by `member_count`
abbrev pub include : (ℕ → ℕ) → Rates → List ℕ → ℕ → ℕ → ℤ → Tally → Tally
include fit rates members member_count payer amount t = record t {
  balances = split fit payer amount (rates.quot amount (pos member_count)) members t.balances;
  total_amount = rounded fit (t.total_amount +ℤ amount);
}

-- One round of the loop over the linked transactions, without the `continue`s.
unfoldable pub add_spend :
    (ℕ → ℕ) → Rates → Text → List ℕ → ℕ → ℕ → Option Spend → Tally → Option Tally
add_spend fit rates base members member_count payer none t = some t
add_spend fit rates base members member_count payer (some tx) t =
    if not (counts (some tx))
    then some t
    else if not (elem payer members)
    then some (exclude fit tx.amount t)
    else (elim (amount_in_base rates base tx) [
      | none ↦ none
      | some amount ↦ some (include fit rates members member_count payer amount t)
    ])

unfoldable pub tally :
    (ℕ → ℕ)
    → Rates
    → Text
    → List ℕ
    → ℕ
    → (ℕ → Option Spend)
    → List SpaceTransaction
    → Tally
    → Option Tally
tally fit rates base members member_count transactions [] t = some t
tally fit rates base members member_count transactions (link ∷ rest) t =
    elim (add_spend fit rates base members member_count link.added_by_user_uuid
      (transactions link.transaction_id) t) [
        | none ↦ none
        | some t' ↦ tally fit rates base members member_count transactions rest t'
      ]
