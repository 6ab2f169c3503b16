-- ===== src/Settlement/Payments.antt =====
-- The payments that settle the balances, and `get_settlement`. The debt that remains and the
-- credits that remain are never negative, so they are natural numbers.
use finvo.Prelude.{
  ◌+◌, ◌||◌, ◌*◌, suc, ◌%◌, ◌/◌, ℕ, ◌-◌, Bool, ◌&&◌, Option, none, some, List, [], ◌∷◌, ◌++◌, map,
  ltb, leb, ◌==◌, if◌then◌else◌,
}
use finvo.Prelude.Int.{neg, negsuc, ℤ, pos, ltb_ℤ, pos_part, neg_part}
use finvo.Prelude.Lists.{select, length}
use finvo.Prelude.Text.{Text, upper}
use finvo.Prelude.Exec.{Outcome, ok, err}
use finvo.Space.Model.{SharedSpace, Session, SpaceError, is_accepted, has_id, is_nil}
use finvo.Space.Access.{verify_membership}
use finvo.Ledger.Model.{Rates}
use finvo.Ledger.Expected.{default_currency}
use finvo.Settlement.Balances.{Balances, Spend, Tally, tally}

-- an entry of `items`, with the amount that is printed
pub record Payment : Type 0 where
  pub from_user : ℕ
  pub to_user : ℕ
  pub amount : ℕ

-- users with what they owe, or with what is owed to them
abbrev pub Shares : Type 0
Shares = List (ℕ × ℕ)

-- `min(a, b)`
abbrev pub min : ℕ → ℕ → ℕ
min a b = if leb a b then a else b

-- `f"{x:.2f}"`: the nearest multiple of 0.01, which is `cent` units, and of two the even one
unfoldable pub printed : ℕ → ℕ → ℕ
printed cent x =
    let q = x / cent in
    let r = x % cent in
    if ltb cent (2 * r) || (2 * r == cent && q % 2 == 1) then (q + 1) * cent else q * cent

abbrev pub printed_ℤ : ℕ → ℤ → ℤ
printed_ℤ cent (pos n) = pos (printed cent n)
printed_ℤ cent (negsuc n) = neg (pos (printed cent (suc n)))

-- `a - x`, rounded by `fit`; the loop skips where `x` is 0.
abbrev pub less : (ℕ → ℕ) → ℕ → ℕ → ℕ
less fit a x = if x == 0 then a else fit (a - x)

-- `if settle_amount > Decimal("0.01"): items.append(...)`; `cent` is the number of units in 0.01.
abbrev pub entry : ℕ → ℕ → ℕ → ℕ → List Payment
entry cent debtor creditor amount =
    if ltb cent amount
    then record { from_user = debtor; to_user = creditor; amount = printed cent amount } ∷ []
    else []

-- The inner loop: the payments of a debtor, and the credits that remain. A creditor who is skipped
-- is settled with 0 here, which changes nothing.
unfoldable pub settle_debtor : (ℕ → ℕ) → ℕ → ℕ → ℕ → Shares → List Payment × Shares
settle_debtor fit cent debtor remaining [] = ([], [])
settle_debtor fit cent debtor remaining ((creditor, credit) ∷ rest) =
    let settle_amount = min remaining credit in
    let (items, left) = settle_debtor fit cent debtor (less fit remaining settle_amount) rest in
    (
      entry cent debtor creditor settle_amount ++ items,
      (creditor, less fit credit settle_amount) ∷ left,
    )

-- `for debtor_uuid, debt in debtors: ...`
unfoldable pub settle_all : (ℕ → ℕ) → ℕ → Shares → Shares → List Payment × Shares
settle_all fit cent [] credits = ([], credits)
settle_all fit cent ((debtor, debt) ∷ rest) credits =
    let (items, left) = settle_debtor fit cent debtor debt credits in
    let (more, rest_left) = settle_all fit cent rest left in (items ++ more, rest_left)

unfoldable pub debtors : Balances → Shares
debtors balances = map (λ e. (e.0, neg_part e.1)) (select (λ e. ltb_ℤ e.1 (pos 0)) balances)

unfoldable pub creditors : Balances → Shares
creditors balances = map (λ e. (e.0, pos_part e.1)) (select (λ e. ltb_ℤ (pos 0) e.1) balances)

-- `balance or default` texts: an empty one counts as missing.
abbrev pub given : Option Text → Option Text
given none = none
given (some []) = none
given (some (c ∷ cs)) = some (c ∷ cs)

-- `primary` has `FinancialSettings.primary_currency` by user, without the rows whose query fails.
unfoldable pub resolve_space_base_currency : (ℕ → Option Text) → SharedSpace → Text
resolve_space_base_currency primary space = elim (given space.base_currency) [
  | some c ↦ upper c
  | none ↦ elim (given (primary space.creator_uuid)) [ some c ↦ upper c | none ↦ default_currency ]
]

pub record Settlement : Type 0 where
  pub base_currency : Text
  pub items : List Payment
  pub total_amount : ℤ
  pub excluded_count : ℕ
  pub excluded_amount : ℤ
  pub is_settled : Bool

pub data SettlementError : Type 0 where
  access : SpaceError → SettlementError
  exchange_rate_unavailable : SettlementError

-- `space` is the row that the query returns, if any.
abbrev pub base_currency_of : (ℕ → Option Text) → List SharedSpace → Text
base_currency_of primary [] = default_currency
base_currency_of primary (space ∷ _) = resolve_space_base_currency primary space

abbrev pub member_ids : ℕ → Session → List ℕ
member_ids space_id s =
    map (λ m. m.user_uuid) (select (λ m. m.space_id == space_id && is_accepted m.status) s.members)

abbrev pub empty_tally : Tally
empty_tally = record {
  balances = [];
  total_amount = pos 0;
  excluded_count = 0;
  excluded_amount = pos 0;
}

abbrev pub report : ℕ → Text → Tally → List Payment → Settlement
report cent base t items = record {
  base_currency = base;
  items = items;
  total_amount = printed_ℤ cent t.total_amount;
  excluded_count = t.excluded_count;
  excluded_amount = printed_ℤ cent t.excluded_amount;
  is_settled = is_nil items;
}

abbrev pub settle : (ℕ → ℕ) → ℕ → Text → Tally → Settlement
settle fit cent base t =
    report cent base t (settle_all fit cent (debtors t.balances) (creditors t.balances)).0

-- what follows the check of the membership
unfoldable pub settlement_of :
    (ℕ → ℕ)
    → Rates
    → ℕ
    → (ℕ → Option Text)
    → (ℕ → Option Spend)
    → ℕ
    → Session
    → Outcome SettlementError Settlement
unfolding resolve_space_base_currency
settlement_of fit rates cent primary transactions space_id s =
    let base = base_currency_of primary (select (has_id space_id) s.spaces) in
    let members = member_ids space_id s in
    if is_nil members
    then ok (report cent base empty_tally [])
    else (elim (tally fit rates base members (length members) transactions
        (select (λ l. l.space_id == space_id) s.links) empty_tally) [
          | none ↦ err exchange_rate_unavailable
          | some t ↦ ok (settle fit cent base t)
        ])

unfoldable pub get_settlement :
    (ℕ → ℕ)
    → Rates
    → ℕ
    → (ℕ → Option Text)
    → (ℕ → Option Spend)
    → ℕ
    → ℕ
    → Session
    → Outcome SettlementError Settlement
unfolding settlement_of
get_settlement fit rates cent primary transactions space_id user_uuid s =
    elim (verify_membership space_id user_uuid s).0 [
      | err e ↦ err (access e)
      | ok _ ↦ settlement_of fit rates cent primary transactions space_id s
    ]
