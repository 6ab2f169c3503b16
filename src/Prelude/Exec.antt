-- ===== src/Prelude/Exec.antt =====
-- A method that changes a state and may raise. What was written before a raise stays written in
-- the session, so the state comes back beside the error too; `unit_of_work` is what undoes it.
use finvo.Prelude.{true, false, arith, ◌≡◌, refl, Bool, Option, none, some, if◌then◌else◌}

pub data Outcome {ℓ κ} (E : Type ℓ) (A : Type κ) : Type (ℓ ⊔ κ) where
  ok : A → Outcome E A
  err : E → Outcome E A

-- the methods over the session state `S` that return an `A` or raise an `E`
abbrev pub Exec : Type 0 → Type 0 → Type 0 → Type 0
Exec S E A = S → Outcome E A × S

module _ {S E A : Type 0} where
  abbrev pub pure : A → Exec S E A
  pure a s = (ok a, s)

  abbrev pub raise : E → Exec S E A
  raise e s = (err e, s)

  abbrev pub gets : (S → A) → Exec S E A
  gets f s = (ok (f s), s)

  -- `if x is None: raise e`
  abbrev pub or_raise : Option A → E → Exec S E A
  or_raise none e = raise e
  or_raise (some a) _ = pure a

module _ {S E A B : Type 0} where
  abbrev pub after : Outcome E A → (A → Exec S E B) → Exec S E B
  after (ok a) f s = f a s
  after (err e) f s = (err e, s)

  infixl 5 ◌>>=◌ ◌>>◌
  abbrev pub ◌>>=◌ : Exec S E A → (A → Exec S E B) → Exec S E B
  ◌>>=◌ m f s = let (r, s') = m s in after r f s'

  abbrev pub ◌>>◌ : Exec S E A → Exec S E B → Exec S E B
  m >> k = m >>= λ _. k

module _ {S E : Type 0} where
  -- `if c: raise e`
  abbrev pub raise_if : Bool → E → Exec S E (Unit {0})
  raise_if c e s = (if c then err e else ok tt, s)

  abbrev pub modify : (S → S) → Exec S E (Unit {0})
  modify f s = (ok tt, f s)

-- the state that a call of a method leaves
abbrev pub final : {S E A : Type 0} → Outcome E A × S → S
final r = r.1

-- `m` keeps `P`, whether it returns or raises.
abbrev pub Keeps : {S E A : Type 0} → (S → Type 0) → Exec S E A → Type 0
Keeps P m = (s : _) → P s → P (final (m s))

module _ {S E A B : Type 0} (P : S → Type 0) where
  pub Keeps-bind :
      (m : Exec S E A) (f : A → Exec S E B)
      → Keeps P m
      → ((a : A) → Keeps P (f a))
      → Keeps P (m >>= f)
  Keeps-bind m f km kf s h = go (m s) (km s h)
    where
      go : (r : Outcome E A × S) → P (final r) → P (final (after r.0 f r.1))
      go (ok a, s') h' = kf a s' h'
      go (err e, s') h' = h'

  -- After a step that only reads, at one state: what the rest may use of the state is kept.
  pub reads-bind :
      (m : Exec S E A) (f : A → Exec S E B) (s : S)
      → final (m s) ≡ s
      → P s
      → ((a : A) → P (final (f a s)))
      → P (final ((m >>= f) s))
  reads-bind m f s same h k = go (m s) same
    where
      go : (r : Outcome E A × S) → final r ≡ s → P (final (after r.0 f r.1))
      go (ok a, s') e = rw e (k a)
      go (err x, s') e = rw e h

-- If the call returned, `Q` holds of its result and the state that it left.
abbrev pub Ensures : {S E A : Type 0} → (A → S → Type 0) → Outcome E A × S → Type 0
Ensures Q (ok a, s) = Q a s
Ensures Q (err e, s) = Unit

pub of_ensures :
    {S E A : Type 0} (Q : A → S → Type 0) (r : Outcome E A × S) (a : A)
    → Ensures Q r
    → r.0 ≡ ok a
    → Q a (final r)
of_ensures Q (ok b, s) a h e = ground (arith, h)
of_ensures Q (err x, s) a h e = cc

pub Ensures-if :
    {S E A : Type 0} (Q : A → S → Type 0) (b : Bool) (x y : Outcome E A × S)
    → Ensures Q x
    → Ensures Q y
    → Ensures Q (if b then x else y)
Ensures-if Q true x y p q = p
Ensures-if Q false x y p q = q

module _ {S E A B : Type 0} where
  -- a step that only reads, before the rest
  pub reads-Ensures :
      (Q : B → S → Type 0) (m : Exec S E A) (f : A → Exec S E B) (s : S)
      → final (m s) ≡ s
      → ((a : A) → (m s).0 ≡ ok a → Ensures Q (f a s))
      → Ensures Q ((m >>= f) s)
  reads-Ensures Q m f s same k = go (m s) same k
    where
      go :
          (r : Outcome E A × S)
          → final r ≡ s
          → ((a : A) → r.0 ≡ ok a → Ensures Q (f a s))
          → Ensures Q (after r.0 f r.1)
      go (ok a, s') e k' = rw e (k' a refl)
      go (err x, s') e k' = tt

  -- any step before the rest
  pub Ensures-bind :
      (Q : B → S → Type 0) (m : Exec S E A) (f : A → Exec S E B) (s : S)
      → ((a : A) (s' : S) → Ensures Q (f a s'))
      → Ensures Q ((m >>= f) s)
  Ensures-bind Q m f s k = go (m s)
    where
      go : (r : Outcome E A × S) → Ensures Q (after r.0 f r.1)
      go (ok a, s') = k a s'
      go (err x, s') = tt

  -- a step whose postcondition the rest may use
  pub Ensures-seq :
      (P : A → S → Type 0) (Q : B → S → Type 0) (m : Exec S E A) (f : A → Exec S E B) (s : S)
      → Ensures P (m s)
      → ((a : A) (s' : S) → P a s' → Ensures Q (f a s'))
      → Ensures Q ((m >>= f) s)
  Ensures-seq P Q m f s h k = go (m s) h
    where
      go : (r : Outcome E A × S) → Ensures P r → Ensures Q (after r.0 f r.1)
      go (ok a, s') p = k a s' p
      go (err x, s') p = tt

module _ {S E B : Type 0} (m : Exec S E (Unit {0})) (k : Exec S E B) (s : S) where
  pub then-ok : (m s).0 ≡ ok tt → (m >> k) s ≡ k (final (m s))
  then-ok h = go (m s) h
    where
      go : (r : Outcome E (Unit {0}) × S) → r.0 ≡ ok tt → after r.0 (λ _. k) r.1 ≡ k r.1
      go (ok tt, s') e = refl
      go (err x, s') e = cc

  pub then-err : (x : E) → (m s).0 ≡ err x → ((m >> k) s).0 ≡ err x
  then-err x h = go (m s) h
    where
      go : (r : Outcome E (Unit {0}) × S) → r.0 ≡ err x → (after r.0 (λ _. k) r.1).0 ≡ err x
      go (ok tt, s') e = cc
      go (err y, s') e = cc

  -- a call that returned made its first step
  pub then-first : (b : B) → ((m >> k) s).0 ≡ ok b → (m s).0 ≡ ok tt
  then-first b h = go (m s) h
    where
      go : (r : Outcome E (Unit {0}) × S) → (after r.0 (λ _. k) r.1).0 ≡ ok b → r.0 ≡ ok tt
      go (ok tt, s') e = refl
      go (err y, s') e = cc

-- `I` holds of the state that is left, and `Q` of the result if the call returned.
abbrev pub Holds : {S E A : Type 0} → (S → Type 0) → (A → Type 0) → Outcome E A × S → Type 0
Holds I Q (ok a, s) = I s × Q a
Holds I Q (err e, s) = I s

module _ {S E A : Type 0} (I : S → Type 0) (Q : A → Type 0) where
  pub Holds-final : (r : Outcome E A × S) → Holds I Q r → I (final r)
  Holds-final (ok a, s) h = h.0
  Holds-final (err e, s) h = h

  module _ {B : Type 0} (R : B → Type 0) where
    pub Holds-bind :
        (m : Exec S E A) (f : A → Exec S E B) (s : S)
        → Holds I Q (m s)
        → ((a : A) (s' : S) → I s' → Q a → Holds I R (f a s'))
        → Holds I R ((m >>= f) s)
    Holds-bind m f s h k = go (m s) h
      where
        go : (r : Outcome E A × S) → Holds I Q r → Holds I R (after r.0 f r.1)
        go (ok a, s') h' = k a s' h'.0 h'.1
        go (err e, s') h' = h'
