-- ===== src/Recurring/Laws/Advance.antt =====
-- What a run of the job does to the rules: the processing of a rule reschedules it, or raises, which
-- some rules never do.
use finvo.Prelude.{
  if◌then◌else◌, ◌≡◌, refl, Bool, true, false, ◌&&◌, ◌⊎◌, ◌==◌, Option, none, some, List,
  Bool-cases, inl, inr, arith,
}
use finvo.Prelude.Int.{ℤ, abs}
use finvo.Prelude.Lists.{update_where}
use finvo.Prelude.Text.{upper}
use finvo.Prelude.Exec.{◌>>=◌, pure, or_raise, after, Outcome, ok, err, ◌>>◌}
use finvo.Ledger.Model.{
  Transaction, TxType, expense, income, transfer, other_type, LedgerError, Accounts,
}
use finvo.Ledger.Convert.{convert_to_user_base}
use finvo.Recurring.Store.{rate_unavailable, Job, Rule, Tables, World, JobError}
use finvo.Recurring.Schedule.{calculate_next_execution}
use finvo.Recurring.Jobs.{
  as_job_error, apply_effect, effect_by_type, apply_recurring_balance_effect, check_type,
  effect_unless_pending, made, create_transaction_from_recurring, already_generated, rescheduled,
  update_next_execution, kept_or, process_item,
}

abbrev pub is_known : TxType → Bool
is_known (other_type t) = false
is_known _ = true

abbrev is_there : {A : Type 0} → Option A → Bool
is_there none = false
is_there (some a) = true

abbrev pub converted : World → Rule → Option (ℤ × ℤ)
converted w r =
    convert_to_user_base w.rates w.rate w.one (abs r.amount) (upper r.currency)
      (w.base_currency r.user_uuid)

-- The transactions of the rule wait for a confirmation, its type is one of the three, and its amount
-- has a rate.
abbrev pub always_succeeds : World → Rule → Bool
always_succeeds w r = (r.requires_confirmation && is_known r.tx_type) && is_there (converted w r)

-- The call leaves the rules, or raises, which it does only if it is not `sure`.
abbrev Ran : {A : Type 0} → Bool → Tables → Outcome JobError A × Tables → Type 0
Ran sure s (ok _, s') = s'.rules ≡ s.rules
Ran sure s (err _, s') = sure ≡ false

Ran-weaker :
    {A : Type 0} (a b : Bool) (s : Tables) (o : Outcome JobError A × Tables)
    → (a ≡ false → b ≡ false)
    → Ran a s o
    → Ran b s o
Ran-weaker a b s (ok x, s') k h = h
Ran-weaker a b s (err e, s') k h = k h

module _ (w : World) (r : Rule) where
  booked-Ran :
      (s : Tables) (o : Outcome LedgerError (Unit {0}) × Accounts)
      → Ran false s (as_job_error o.0, record s { accounts = o.1 })
  booked-Ran s (ok a, accounts) = refl
  booked-Ran s (err e, accounts) = refl

  by_type-Ran :
      (tx : Transaction) (k : TxType) (s : Tables) → Ran false s (effect_by_type w r tx k s)
  unfolding apply_effect
  by_type-Ran tx expense s = booked-Ran s _
  by_type-Ran tx income s = booked-Ran s _
  by_type-Ran tx transfer s = booked-Ran s _
  by_type-Ran tx (other_type _) s = refl

  if-Ran :
      (b : Bool) (m : Job (Unit {0})) (s : Tables)
      → Ran false s (m s)
      → Ran b s ((if b then pure tt else m) s)
  if-Ran true m s h = refl
  if-Ran false m s h = h

  effect-Ran :
      (tx : Transaction) (s : Tables)
      → Ran r.requires_confirmation s (effect_unless_pending w r tx s)
  unfolding apply_recurring_balance_effect
  effect-Ran tx s = if-Ran r.requires_confirmation _ s (by_type-Ran tx tx.tx_type s)

  checked-Ran :
      (tx : Transaction) (k : TxType) (s : Tables)
      → Ran
          (r.requires_confirmation && is_known k)
          s
          ((check_type k >> effect_unless_pending w r tx) s)
  checked-Ran tx (other_type t) s = ground arith
  checked-Ran tx expense s = Ran-weaker _ _ s _ (λ h. ground arith) (effect-Ran tx s)
  checked-Ran tx income s = Ran-weaker _ _ s _ (λ h. ground arith) (effect-Ran tx s)
  checked-Ran tx transfer s = Ran-weaker _ _ s _ (λ h. ground arith) (effect-Ran tx s)

  converted-Ran :
      (o : Option (ℤ × ℤ)) (f : ℤ × ℤ → Job (Unit {0})) (sure : Bool) (s : Tables)
      → ((c : ℤ × ℤ) → Ran sure s (f c s))
      → Ran (sure && is_there o) s ((or_raise o rate_unavailable >>= f) s)
  converted-Ran none f sure s k = ground arith
  converted-Ran (some c) f sure s k = Ran-weaker sure _ s (f c s) (λ h. ground arith) (k c)

  create-Ran : (s : Tables) → Ran (always_succeeds w r) s (create_transaction_from_recurring w r s)
  unfolding create_transaction_from_recurring
  create-Ran s = converted-Ran (converted w r) _ _ s (λ c. checked-Ran (made w r c).tx r.tx_type _)

  abbrev pub advance : List Rule → List Rule
  advance = update_where (λ x. x.uuid == r.uuid) (rescheduled (calculate_next_execution w r))

  -- The rules with this identifier are rescheduled, or nothing happens and the rule may fail.
  abbrev pub Advanced : Tables → Tables → Type 0
  Advanced s s' =
      (s'.rules ≡ advance s.rules) ⊎ ((s'.rules ≡ s.rules) × (always_succeeds w r ≡ false))

  generate-go :
      (s : Tables) (o : Outcome JobError (Unit {0}) × Tables)
      → Ran (always_succeeds w r) s o
      → let (result, s') = after o.0 (λ _. update_next_execution w r) o.1 in
        Advanced s (kept_or s result s')
  unfolding update_next_execution
  generate-go s (ok a, s') h = inl (rw h refl)
  generate-go s (err e, s') h = inr (refl, h)

  pub process_item-Advanced : (s : Tables) → Advanced s (process_item w r s)
  unfolding process_item
  process_item-Advanced s = elim (Bool-cases (already_generated r s)) [
    | inl there ↦ rw (there, process_item) (inl refl)
    | inr fresh ↦
        rw (fresh, process_item)
          (generate-go s (create_transaction_from_recurring w r s) (create-Ran s))
  ]
