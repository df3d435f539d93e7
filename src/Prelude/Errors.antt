-- ===== src/Prelude/Errors.antt =====
-- A call that may throw: `err` carries the code of the error that is thrown.
use mathlib.Core.Path.{◌≡◌, refl}
use mathlib.Core.Logic.{◌⊎◌, inl, inr}
use mathlib.Core.Bool.{Bool, true, false}

pub data Result {ℓ} (E : Type 0) (A : Type ℓ) : Type ℓ where
  ok : A → Result E A
  err : E → Result E A

module _ {E : Type 0} where
  -- `if (test) throw new …(code)`.
  abbrev pub throw_if : Bool → E → Result E (Unit {0})
  throw_if false code = ok tt
  throw_if true code = err code

  -- `if (!test) throw new …(code)`.
  abbrev pub guard : Bool → E → Result E (Unit {0})
  guard false code = err code
  guard true code = ok tt

  infixl 5 ◌>>=◌
  abbrev pub ◌>>=◌ {ℓ κ} : {A : Type ℓ} {B : Type κ} → Result E A → (A → Result E B) → Result E B
  err code >>= next = err code
  ok value >>= next = next value

  infixl 5 ◌>>◌
  abbrev pub ◌>>◌ {κ} : {B : Type κ} → Result E (Unit {0}) → Result E B → Result E B
  first >> next = first >>= (λ done. next)

module _ {ℓ κ} {E : Type 0} {A : Type ℓ} {B : Type κ} where
  -- A sequence that returns has a first part that returned: for proofs where the parts stay shut.
  pub >>=-eq-ok :
      (first : Result E A) (next : A → Result E B) {result : B}
      → (first >>= next) ≡ ok result
      → (value : A) × (first ≡ ok value) × (next value ≡ ok result)
  >>=-eq-ok (err code) next returned = cc
  >>=-eq-ok (ok value) next returned = (value, refl, returned)

pub err-injective {ℓ} :
    {E : Type 0} {A : Type ℓ} {x y : E} → ◌≡◌ {A = Result E A} (err x) (err y) → x ≡ y
err-injective h = cc

pub ok-injective {ℓ} :
    {E : Type 0} {A : Type ℓ} {a b : A} → ◌≡◌ {A = Result E A} (ok a) (ok b) → a ≡ b
ok-injective h = cc

pub throw_if-ok : {E : Type 0} (b : Bool) (e : E) {u : Unit {0}} → throw_if b e ≡ ok u → b ≡ false
throw_if-ok true e h = cc
throw_if-ok false e h = refl

pub guard-ok : {E : Type 0} (b : Bool) (e : E) {u : Unit {0}} → guard b e ≡ ok u → b ≡ true
guard-ok true e h = refl
guard-ok false e h = cc

-- The same, handed on: for a chain of binds.
pub bind_ok {ℓ κ μ} :
    {E : Type 0} {A : Type ℓ} {B : Type κ} {P : Type μ} (m : Result E A) (f : A → Result E B)
    {b : B}
    → (m >>= f) ≡ ok b
    → ((a : A) → m ≡ ok a → f a ≡ ok b → P)
    → P
bind_ok (ok a) f h k = k a refl h
bind_ok (err e) f h k = absurd (cc)

pub Result-cases {ℓ} :
    {E : Type 0} {A : Type ℓ} (r : Result E A) → ((a : A) × (r ≡ ok a)) ⊎ ((e : E) × (r ≡ err e))
Result-cases (ok a) = inl (a, refl)
Result-cases (err e) = inr (e, refl)
