-- ===== src/Recurring/Laws/Sound.antt =====
-- What the rules that the service stores and the job reschedules have in common.
use finvo.Prelude.{
  ℕ, ◌≡◌, ◌∙◌, sym, refl, Bool, true, false, not, ◌&&◌, Option, none, some, List, [], ◌∷◌,
  Option-cases, inl, inr, arith,
}
use finvo.Prelude.Int.{pos, ltb_ℤ}
use finvo.Prelude.Lists.{all, all-append, all-delete, all-update, select}
use finvo.Prelude.Text.{Text}
use finvo.Prelude.Exec.{ok, Keeps}
use finvo.Ledger.Model.{TxType}
use finvo.Recurring.Store.{Rule, Tables, World}
use finvo.Recurring.Schedule.{calculate_next_execution}
use finvo.Recurring.Jobs.{rescheduled, process_item, process_all}
use finvo.Recurring.Validation.{validate_recurrence_rule, validate_transaction_type}
use finvo.Recurring.Laws.Advance.{is_known, Advanced, process_item-Advanced}
use finvo.Recurring.Laws.Guards.{is_ok, is_given, Keeps-lift, Keeps-given, Keeps-raise_if}
use finvo.Recurring.Rules.{
  nulled, Site, Draft, Patch, new_rule, patched, recalculated, amount_refused, is_owned,
  update_owned, delete_owned, create_recurring_transaction, update_recurring_transaction,
  delete_recurring_transaction,
}

-- The recurrence rule passes the validation, the amount is positive, and the type is one of the three.
abbrev pub is_sound : (Text → Bool) → Rule → Bool
is_sound parses r =
    is_ok (validate_recurrence_rule parses r.recurrence_rule)
    && ltb_ℤ (pos 0) r.amount
    && is_known r.tx_type

type-known : (v : Text) (k : TxType) → validate_transaction_type v ≡ ok k → is_known k ≡ true
unfolding validate_transaction_type
type-known v k h = ground arith

module _ (parses : Text → Bool) where
  abbrev pub IsSound : Tables → Type 0
  IsSound s = all (is_sound parses) s.rules ≡ true

  is_sound-rescheduled :
      (o : Option ℕ) (r : Rule)
      → is_sound parses r ≡ true
      → is_sound parses (rescheduled o r) ≡ true
  is_sound-rescheduled none r h = h
  is_sound-rescheduled (some t) r h = h

  process_item-IsSound :
      (w : World) (r : Rule) (s s' : Tables) → Advanced w r s s' → IsSound s → IsSound s'
  process_item-IsSound w r s s' (inl moved) h = rw moved (
      all-update _ _ _ _ s.rules (λ x there. is_sound-rescheduled (calculate_next_execution w r) x)
        (λ x other k. k) h)
  process_item-IsSound w r s s' (inr (same, may_fail)) h = rw same h

  pub process_all-IsSound :
      (w : World) (rs : List Rule) (s : Tables) → IsSound s → IsSound (process_all w rs s)
  unfolding process_all
  process_all-IsSound w [] s h = h
  process_all-IsSound w (r ∷ rs) s h =
      process_all-IsSound w rs (process_item w r s)
        (process_item-IsSound w r s (process_item w r s) (process_item-Advanced w r s) h)

  module _ (site : Site) (same : site.parses ≡ parses) where
    pub Keeps-create : (u : ℕ) (q : Draft) → Keeps IsSound (create_recurring_transaction site u q)
    unfolding create_recurring_transaction
    Keeps-create u q =
        Keeps-lift IsSound (validate_recurrence_rule site.parses q.recurrence_rule) _ λ t valid.
          Keeps-lift IsSound (validate_transaction_type q.tx_type) _ λ k typed.
            Keeps-raise_if IsSound (not (ltb_ℤ (pos 0) q.amount)) _ _ λ paid s h.
              let valid' : is_ok (validate_recurrence_rule parses q.recurrence_rule) ≡ true =
                rw (sym same, valid) refl in
              all-append _ s.rules (new_rule site u q k) h
                (ground (arith, valid', paid, type-known q.tx_type k typed))

    is_sound-patched :
        (q : Patch) (r : Rule)
        → is_given (validate_recurrence_rule parses) q.recurrence_rule ≡ true
        → amount_refused q.amount ≡ false
        → is_sound parses r ≡ true
        → is_sound parses (patched q r) ≡ true
    is_sound-patched q r valid paid h = elim (Option-cases q.recurrence_rule) [
      | inl a ↦ elim (Option-cases q.amount) [
        | inl b ↦ rw (a, b) h
        | inr (x, b) ↦ ground (arith, rw b at (paid))
      ]
      | inr (t, a) ↦ elim (Option-cases q.amount) [
        | inl b ↦ ground (arith, rw a at (valid))
        | inr (x, b) ↦ ground (arith, rw a at (valid), rw b at (paid))
      ]
    ]

    is_sound-recalculated :
        (q : Patch) (r : Rule) → is_sound parses (recalculated site q r) ≡ is_sound parses r
    is_sound-recalculated q r = ground arith

    pub Keeps-update :
        (k u : ℕ) (q : Patch) → Keeps IsSound (update_recurring_transaction site k u q)
    unfolding update_recurring_transaction
    Keeps-update k u q s h = go (select (is_owned k u) s.rules) s h
      where
        go : (found : List Rule) → Keeps IsSound (update_owned site k u q found)
        go [] = λ s' h'. h'
        go (r ∷ rest) =
            Keeps-given IsSound (validate_recurrence_rule site.parses) q.recurrence_rule _ λ valid.
              Keeps-given IsSound validate_transaction_type q.tx_type _ λ typed.
                Keeps-raise_if IsSound (amount_refused q.amount) _ _ λ paid.
                  Keeps-raise_if IsSound (nulled q.timezone) _ _ λ zoned s' h'.
                    all-update _ _ (is_owned k u) (λ x. recalculated site q (patched q x)) s'.rules
                      (λ x own k'.
                        is_sound-recalculated q (patched q x)
                        ∙ is_sound-patched q x (rw (sym same) valid) paid k')
                      (λ x other k'. k') h'

  pub Keeps-delete : (k u : ℕ) → Keeps IsSound (delete_recurring_transaction k u)
  unfolding delete_recurring_transaction
  Keeps-delete k u s h = go (select (is_owned k u) s.rules) s h
    where
      go : (found : List Rule) → Keeps IsSound (delete_owned k u found)
      go [] s' h' = h'
      go (r ∷ rest) s' h' = all-delete _ _ s'.rules h'
