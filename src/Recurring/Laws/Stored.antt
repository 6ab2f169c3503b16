-- ===== src/Recurring/Laws/Stored.antt =====
-- The rules that any sequence of requests and runs of the job leaves, and the type of a rule.
use finvo.Prelude.{ℕ, ◌≡◌, refl, Bool, true, List, [], ◌∷◌, map, ◌∙◌, arith}
use finvo.Prelude.Lists.{all, select, update_where}
use finvo.Prelude.Exec.{Outcome, ok, err, final, Keeps}
use finvo.Ledger.Model.{TxType}
use finvo.Recurring.Store.{Rule, Tables, World}
use finvo.Recurring.Jobs.{is_due, process_due_transactions}
use finvo.Recurring.Validation.{RuleError, validate_recurrence_rule, validate_transaction_type}
use finvo.Recurring.Rules.{
  Site, Draft, Patch, Serve, patched, recalculated, amount_refused, nulled, is_owned, update_owned,
  create_recurring_transaction, update_recurring_transaction, delete_recurring_transaction,
}
use finvo.Recurring.Laws.Guards.{Keeps-given, Keeps-raise_if}
use finvo.Recurring.Laws.Sound.{
  is_sound, IsSound, Keeps-create, Keeps-update, Keeps-delete, process_all-IsSound,
}

-- A creation has the identifier that it uses; a run of the job is at a time of its own.
pub data Request : Type 0 where
  create : ℕ → ℕ → Draft → Request
  update : ℕ → ℕ → Patch → Request
  delete : ℕ → ℕ → Request
  run : World → Request

-- the unit of work of a request: a raise rolls back
abbrev committed : {A : Type 0} → Tables → Outcome RuleError A × Tables → Tables
committed s (ok a, s') = s'
committed s (err e, s') = s

unfoldable pub serve : Site → Request → Tables → Tables
unfolding process_due_transactions create_recurring_transaction update_recurring_transaction
    delete_recurring_transaction
serve site (create k u q) s =
    committed s (create_recurring_transaction (record site { new_rule_uuid = k }) u q s)
serve site (update k u q) s = committed s (update_recurring_transaction site k u q s)
serve site (delete k u) s = committed s (delete_recurring_transaction k u s)
serve site (run w) s = process_due_transactions w s

unfoldable pub serve_all : Site → List Request → Tables → Tables
unfolding serve
serve_all site [] s = s
serve_all site (r ∷ rest) s = serve_all site rest (serve site r s)

committed-IsSound :
    (parses : _) {A : Type 0} (s : Tables) (r : Outcome RuleError A × Tables)
    → IsSound parses s
    → IsSound parses (final r)
    → IsSound parses (committed s r)
committed-IsSound parses s (ok a, s') h h' = h'
committed-IsSound parses s (err e, s') h h' = h

serve-IsSound :
    (site : Site) (r : Request)
    → (s : Tables) → IsSound site.parses s
    → IsSound site.parses (serve site r s)
unfolding serve process_due_transactions
serve-IsSound site (create k u q) s h =
    committed-IsSound site.parses s _ h
      (Keeps-create site.parses (record site { new_rule_uuid = k }) refl u q s h)
serve-IsSound site (update k u q) s h =
    committed-IsSound site.parses s _ h (Keeps-update site.parses site refl k u q s h)
serve-IsSound site (delete k u) s h =
    committed-IsSound site.parses s _ h (Keeps-delete site.parses k u s h)
serve-IsSound site (run w) s h = process_all-IsSound site.parses w (select (is_due w) s.rules) s h

-- Whatever creations, updates, deletions and runs of the job are served from tables whose rules pass,
-- each stored rule passes: its recurrence rule is one that the validation accepts, its amount is
-- positive and its type is EXPENSE, INCOME or TRANSFER.
pub serve_all-IsSound :
    (site : Site) (requests : List Request) (s : Tables)
    → all (is_sound site.parses) s.rules ≡ true
    → all (is_sound site.parses) (serve_all site requests s).rules ≡ true
unfolding serve_all
serve_all-IsSound site [] s h = h
serve_all-IsSound site (r ∷ rest) s h =
    serve_all-IsSound site rest (serve site r s) (serve-IsSound site r s h)

abbrev types : Tables → List TxType
types s = map (λ r. r.tx_type) s.rules

update_where-types :
    (p : Rule → Bool) (f : Rule → Rule) (rs : List Rule)
    → ((r : Rule) → (f r).tx_type ≡ r.tx_type)
    → map (λ r. r.tx_type) (update_where p f rs) ≡ map (λ r. r.tx_type) rs
unfolding update_where
update_where-types p f [] k = refl
update_where-types p f (r ∷ rs) k = ground (arith, update_where-types p f rs k, k r)

-- `f` leaves the types, whatever it returns or raises
abbrev KeepsTypes : {A : Type 0} → List TxType → Serve A → Type 0
KeepsTypes ts = Keeps (λ s. types s ≡ ts)

recalculated-type :
    (site : Site) (q : Patch) (r : Rule) → (recalculated site q r).tx_type ≡ r.tx_type
recalculated-type site q r = ground arith

-- An update changes no rule's type, also where the request gives a type, which is checked but never
-- assigned: the types of all rules are the same before and after, whether it returns or raises.
pub update_recurring_transaction-types :
    (site : Site) (k u : ℕ) (q : Patch) (s : Tables)
    → map (λ r. r.tx_type) (final (update_recurring_transaction site k u q s)).rules
      ≡ map (λ r. r.tx_type) s.rules
unfolding update_recurring_transaction
update_recurring_transaction-types site k u q s = go (select (is_owned k u) s.rules) s refl
  where
    P : Tables → Type 0
    P t = types t ≡ types s

    go : (found : List Rule) → KeepsTypes (types s) (update_owned site k u q found)
    go [] = λ t h. h
    go (r ∷ rest) =
        Keeps-given P (validate_recurrence_rule site.parses) q.recurrence_rule _ λ valid.
          Keeps-given P validate_transaction_type q.tx_type _ λ typed.
            Keeps-raise_if P (amount_refused q.amount) _ _ λ paid.
              Keeps-raise_if P (nulled q.timezone) _ _ λ zoned t h.
                update_where-types (is_owned k u) (λ x. recalculated site q (patched q x)) t.rules
                  (λ x. recalculated-type site q (patched q x))
                ∙ h
