-- ===== src/Account/Laws/Shares.antt =====
-- What a transaction counts for two accounts, and for one once its references to the other point here.
use finvo.Prelude.{
  ◌∙◌, ap, ℕ, ◌≡◌, refl, Bool, true, false, not, ◌&&◌, ◌||◌, Option, none, some, arith, ◌==◌,
  if◌then◌else◌,
}
use finvo.Prelude.Int.{ℤ, pos, ◌+ℤ◌, neg, int_laws}
use finvo.Ledger.Model.{TxType, expense, income, transfer, other_type}
use finvo.Ledger.Expected.{effect_of_type, refers, when}
use finvo.Account.Model.{redirect}
use finvo.Account.Laws.Sums.{good, share}

-- the effect of a transaction by what it refers to and the converted amount
abbrev pub effect_by : TxType → Bool → Bool → Option ℤ → Option ℤ
effect_by t from to c =
    if not from && not to
    then some (pos 0)
    else elim c [ none ↦ none | some x ↦ some (effect_of_type t from to x) ]

pub effect_by_cong :
    (t : TxType) {f f' d d' : Bool} {c c' : Option ℤ}
    → f ≡ f'
    → d ≡ d'
    → c ≡ c'
    → effect_by t f d c ≡ effect_by t f' d' c'
effect_by_cong t {f} {f'} {d} {d'} {c} {c'} p q r =
    ap (λ x. effect_by t x d c) p
    ∙ (ap (λ x. effect_by t f' x c) q ∙ ap (λ x. effect_by t f' d' x) r)

-- An expense has no target, an income no source.
abbrev pub fits : TxType → Bool → Bool → Bool
fits expense from to = not to
fits income from to = not from
fits transfer from to = true
fits (other_type _) from to = true

when_or : (a b : Bool) (x : ℤ) → (a && b) ≡ false → when (a || b) x ≡ when a x +ℤ when b x
when_or true true x h = ground arith
when_or true false x h = omega int_laws
when_or false true x h = omega int_laws
when_or false false x h = omega int_laws

effect_or :
    (t : TxType) (f f' d d' : Bool) (x : ℤ)
    → (f && f') ≡ false
    → (d && d') ≡ false
    → effect_of_type t (f || f') (d || d') x ≡ effect_of_type t f d x +ℤ effect_of_type t f' d' x
effect_or expense f f' d d' x h k = when_or f f' (neg x) h
effect_or income f f' d d' x h k = when_or d d' x k
effect_or transfer f f' d d' x h k = rw (when_or f f' (neg x) h, when_or d d' x k) (omega int_laws)
effect_or (other_type _) f f' d d' x h k = omega int_laws

-- A transaction counts its effect, however often it refers to the account.
share-effect :
    (t : TxType) (f d : Bool) (x : ℤ)
    → fits t f d ≡ true
    → share true f d (effect_by t f d (some x)) ≡ effect_of_type t f d x
share-effect expense true true x h = ground arith
share-effect expense true false x h = omega int_laws
share-effect expense false true x h = ground arith
share-effect expense false false x h = omega int_laws
share-effect income true true x h = ground arith
share-effect income true false x h = ground arith
share-effect income false true x h = omega int_laws
share-effect income false false x h = omega int_laws
share-effect transfer true true x h = omega int_laws
share-effect transfer true false x h = omega int_laws
share-effect transfer false true x h = omega int_laws
share-effect transfer false false x h = omega int_laws
share-effect (other_type _) true true x h = omega int_laws
share-effect (other_type _) true false x h = omega int_laws
share-effect (other_type _) false true x h = omega int_laws
share-effect (other_type _) false false x h = omega int_laws

fits-or :
    (t : TxType) (f f' d d' : Bool)
    → fits t f d ≡ true
    → fits t f' d' ≡ true
    → fits t (f || f') (d || d') ≡ true
fits-or expense f f' d d' h k = ground arith
fits-or income f f' d d' h k = ground arith
fits-or transfer f f' d d' h k = refl
fits-or (other_type _) f f' d d' h k = refl

-- a transaction that counts nowhere
share-nothing : (f d : Bool) (v : Option ℤ) → share false f d v ≡ pos 0
share-nothing f d v = omega int_laws

no_refs :
    (t : TxType) (f d : Bool)
    → good true f d (effect_by t f d none) ≡ true
    → (f ≡ false) × (d ≡ false)
no_refs t true d h = ground arith
no_refs t false true h = ground arith
no_refs t false false h = (refl, refl)

pub share-or :
    (t : TxType) (clear f f' d d' : Bool) (c : Option ℤ)
    → (f && f') ≡ false
    → (d && d') ≡ false
    → fits t f d ≡ true
    → fits t f' d' ≡ true
    → good clear f d (effect_by t f d c) ≡ true
    → good clear f' d' (effect_by t f' d' c) ≡ true
    → share clear (f || f') (d || d') (effect_by t (f || f') (d || d') c)
      ≡ share clear f d (effect_by t f d c) +ℤ share clear f' d' (effect_by t f' d' c)
share-or t false f f' d d' c h k p q g g' = omega int_laws
share-or t true f f' d d' (some x) h k p q g g' =
    rw
      (
        share-effect t (f || f') (d || d') x (fits-or t f f' d d' p q),
        share-effect t f d x p,
        share-effect t f' d' x q,
      )
      (effect_or t f f' d d' x h k)
share-or t true f f' d d' none h k p q g g' =
    let n = no_refs t f d g in
    let m = no_refs t f' d' g' in rw (n.0, n.1, m.0, m.1) (omega int_laws)

pub good-or :
    (t : TxType) (clear f f' d d' : Bool) (c : Option ℤ)
    → good clear f d (effect_by t f d c) ≡ true
    → good clear f' d' (effect_by t f' d' c) ≡ true
    → good clear (f || f') (d || d') (effect_by t (f || f') (d || d') c) ≡ true
good-or t false f f' d d' c g g' = refl
good-or t true f f' d d' (some x) g g' = ground arith
good-or t true f f' d d' none g g' =
    let n = no_refs t f d g in let m = no_refs t f' d' g' in rw (n.0, n.1, m.0, m.1) refl

-- A reference to `i` that now points at `j` is a reference to `j`.
pub refers-redirect :
    (i j : ℕ) (o : Option ℕ) → refers j (redirect i (some j) o) ≡ (refers i o || refers j o)
refers-redirect i j none = refl
refers-redirect i j (some k) = ground arith

pub refers-apart : (i j : ℕ) (o : Option ℕ) → (i == j) ≡ false → (refers i o && refers j o) ≡ false
refers-apart i j none h = refl
refers-apart i j (some k) h = ground arith
