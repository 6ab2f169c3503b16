-- ===== src/Recurring/Laws/Guards.antt =====
-- The guards of the operations on rules: a predicate on the tables is kept by what follows a guard,
-- given what the guard has checked.
use finvo.Prelude.{◌≡◌, refl, Bool, true, false, ◌⊎◌, Option, none, some, inl, inr}
use finvo.Prelude.Exec.{Outcome, ok, err, Keeps, raise_if, ◌>>=◌, ◌>>◌}
use finvo.Recurring.Store.{Tables}
use finvo.Recurring.Validation.{RuleError}
use finvo.Recurring.Rules.{Serve, lift, validate_given}

abbrev pub is_ok : {A : Type 0} → Outcome RuleError A → Bool
is_ok (ok a) = true
is_ok (err e) = false

Outcome-cases :
    {A : Type 0} (o : Outcome RuleError A)
    → ((a : A) × (o ≡ ok a)) ⊎ ((e : RuleError) × (o ≡ err e))
Outcome-cases (ok a) = inl (a, refl)
Outcome-cases (err e) = inr (e, refl)

-- a value that is given passes the check
abbrev pub is_given : {A B : Type 0} → (A → Outcome RuleError B) → Option A → Bool
is_given check none = true
is_given check (some a) = is_ok (check a)

module _ (P : Tables → Type 0) where
  module _ {A B : Type 0} where
    pub Keeps-lift :
        (o : Outcome RuleError A) (f : A → Serve B)
        → ((a : A) → o ≡ ok a → Keeps P (f a))
        → Keeps P (lift o >>= f)
    Keeps-lift (ok a) f k s h = k a refl s h
    Keeps-lift (err e) f k s h = h

    pub Keeps-given :
        (check : A → Outcome RuleError B) (o : Option A) {C : Type 0} (f : Serve C)
        → (is_given check o ≡ true → Keeps P f)
        → Keeps P (validate_given check o >> f)
    Keeps-given check none f k s h = k refl s h
    Keeps-given check (some a) f k s h = elim (Outcome-cases (check a)) [
      | inl (b, e) ↦ rw e (k (rw e refl) s h)
      | inr (x, e) ↦ rw e h
    ]

  pub Keeps-raise_if :
      {B : Type 0} (c : Bool) (e : RuleError) (f : Serve B)
      → (c ≡ false → Keeps P f)
      → Keeps P (raise_if c e >> f)
  Keeps-raise_if true e f k s h = h
  Keeps-raise_if false e f k s h = k refl s h
