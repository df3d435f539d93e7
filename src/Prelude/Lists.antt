-- ===== src/Prelude/Lists.antt =====
-- Lists measured by native numbers, and the predicates and searches that the components share.
use Prim.Native.Nat.{ℕ, zero, suc, ◌+◌}
use mathlib.Core.Path.{◌≡◌, refl, sym, ap, ◌∙◌, subst}
use mathlib.Core.Logic.{◌⊎◌, inl, inr}
use mathlib.Core.Bool.{Bool, true, false, ◌&&◌, ◌||◌}
use mathlib.Core.List.{List, [], ◌∷◌, ◌++◌, Memᴰ}
use mathlib.Core.Option.{Option, none, some}
use native.Mathlib.Omega.{arith}
use reflo_learning.Prelude.Tests.{if◌then◌else◌, Bool-cases, Option-cases}

module _ {ℓ} {A : Type ℓ} where
  abbrev pub length : List A → ℕ
  length [] = 0
  length (x ∷ xs) = suc (length xs)

  abbrev pub get_elem? : List A → ℕ → Option A
  get_elem? [] i = none
  get_elem? (x ∷ xs) zero = some x
  get_elem? (x ∷ xs) (suc i) = get_elem? xs i

  abbrev pub take : ℕ → List A → List A
  take zero xs = []
  take (suc n) [] = []
  take (suc n) (x ∷ xs) = x ∷ take n xs

  abbrev pub drop : ℕ → List A → List A
  drop zero xs = xs
  drop (suc n) [] = []
  drop (suc n) (x ∷ xs) = drop n xs

  abbrev pub replicate : ℕ → A → List A
  replicate zero a = []
  replicate (suc n) a = a ∷ replicate n a

  -- `.some(test)`, `.every(test)` and `.find(test)` of an array.
  abbrev pub any : (A → Bool) → List A → Bool
  any test [] = false
  any test (x ∷ xs) = test x || any test xs

  abbrev pub all : (A → Bool) → List A → Bool
  all test [] = true
  all test (x ∷ xs) = test x && all test xs

  abbrev pub find : (A → Bool) → List A → Option A
  find test [] = none
  find test (x ∷ xs) = if test x then some x else find test xs

  abbrev pub All {κ} : (A → Type κ) → List A → Type κ
  All P [] = Unit
  All P (x ∷ xs) = P x × All P xs

  pub length-append : (xs ys : List A) → length (xs ++ ys) ≡ length xs + length ys
  length-append [] ys = omega arith
  length-append (x ∷ xs) ys = omega (arith, length-append xs ys)

module _ {ℓ κ} {A : Type ℓ} (P : A → Type κ) where
  pub All-append : (xs ys : List A) → All P xs → All P ys → All P (xs ++ ys)
  All-append [] ys h k = k
  All-append (x ∷ xs) ys h k = (h.0, All-append xs ys h.1 k)

  pub All-lookup : (xs : List A) {a : A} → All P xs → Memᴰ a xs → P a
  All-lookup [] h m = elim m [ ]
  All-lookup (x ∷ xs) h (Memᴰ.head e) = subst P (sym e) h.0
  All-lookup (x ∷ xs) h (Memᴰ.tail m) = All-lookup xs h.1 m

  pub All-append-left : (xs ys : List A) → All P (xs ++ ys) → All P xs
  All-append-left [] ys h = tt
  All-append-left (x ∷ xs) ys h = (h.0, All-append-left xs ys h.1)

  pub All-append-right : (xs ys : List A) → All P (xs ++ ys) → All P ys
  All-append-right [] ys h = h
  All-append-right (x ∷ xs) ys h = All-append-right xs ys h.1

module _ {ℓ κ μ} {A : Type ℓ} (P : A → Type κ) (Q : A → Type μ) where
  pub All-map : ((a : A) → P a → Q a) → (xs : List A) → All P xs → All Q xs
  All-map f [] h = tt
  All-map f (x ∷ xs) h = (f x h.0, All-map f xs h.1)

module _ {ℓ} {A : Type ℓ} where
  pub All-members : (xs : List A) → All (λ x. Memᴰ x xs) xs
  All-members [] = tt
  All-members (x ∷ xs) = (Memᴰ.head refl, All-map _ _ (λ y m. Memᴰ.tail m) xs (All-members xs))

  pub All-both {κ μ} :
      (P : A → Type κ) (Q : A → Type μ) (xs : List A)
      → All P xs
      → All Q xs
      → All (λ x. P x × Q x) xs
  All-both P Q [] p q = tt
  All-both P Q (x ∷ xs) p q = ((p.0, q.0), All-both P Q xs p.1 q.1)

  pub All-swap {κ} :
      {B : Type κ} (R : A → B → Type 0) (xs : List A) (ys : List B)
      → All (λ x. All (R x) ys) xs
      → All (λ y. All (λ x. R x y) xs) ys
  All-swap R xs [] h = tt
  All-swap R xs (y ∷ ys) h = (
    All-map _ (λ x. R x y) (λ x p. p.0) xs h,
    All-swap R xs ys (All-map _ (λ x. All (R x) ys) (λ x p. p.1) xs h),
  )

module _ {A B : Type 0} (f : A → Option B) where
  abbrev pub filter_map : List A → List B
  filter_map [] = []
  filter_map (x ∷ xs) = elim (f x) [ none ↦ filter_map xs | some b ↦ b ∷ filter_map xs ]

  pub filter_map-All {κ} :
      (P : B → Type κ) (xs : List A)
      → ((x : A) (b : B) → Memᴰ x xs → f x ≡ some b → P b)
      → All P (filter_map xs)
  filter_map-All P [] h = tt
  filter_map-All P (x ∷ xs) h =
      let rest = filter_map-All P xs (λ y b m e. h y b (Memᴰ.tail m) e) in
      (elim (f x)
          as (λ o. f x ≡ o → All P (elim o [ none ↦ filter_map xs | some b ↦ b ∷ filter_map xs ])) [
            | none ↦ λ e. rest
            | some b ↦ λ e. (h x b (Memᴰ.head refl) e, rest)
          ])
        refl

  -- What each item gives has the property, or it gives nothing.
  pub filter_map-All-back {κ} :
      (P : B → Type κ) (xs : List A)
      → All P (filter_map xs)
      → All (λ x. (f x ≡ none) ⊎ ((b : B) × (f x ≡ some b) × P b)) xs
  filter_map-All-back P [] h = tt
  filter_map-All-back P (x ∷ xs) h =
      (elim (f x)
          as (λ o.
            f x ≡ o
            → All P (elim o [ none ↦ filter_map xs | some b ↦ b ∷ filter_map xs ])
            → All (λ x. (f x ≡ none) ⊎ ((b : B) × (f x ≡ some b) × P b)) (x ∷ xs)) [
              | none ↦ λ e h. (inl e, filter_map-All-back P xs h)
              | some b ↦ λ e h. (inr (b, e, h.0), filter_map-All-back P xs h.1)
            ])
        refl h

pub find-ok :
    {A : Type 0} (p : A → Bool) (xs : List A) {x : A}
    → find p xs ≡ some x
    → Memᴰ x xs × (p x ≡ true)
find-ok p [] h = absurd (cc)
find-ok p (y ∷ ys) {x} h = elim (Bool-cases (p y)) [
  | inl yes_here ↦
      let its : y ≡ x = ground arith in (Memᴰ.head (sym its), ap p (sym its) ∙ yes_here)
  | inr elsewhere ↦ let (m, q) = find-ok p ys (ground arith) in (Memᴰ.tail m, q)
]

pub find-none :
    {A : Type 0} (p : A → Bool) (xs : List A) → find p xs ≡ none → All (λ x. p x ≡ false) xs
find-none p [] h = tt
find-none p (y ∷ ys) h = elim (Bool-cases (p y)) [
  | inl yes_here ↦ absurd (ground arith)
  | inr elsewhere ↦ (elsewhere, find-none p ys (ground arith))
]

-- Members of lists, by cases on where they stand.
pub Memᴰ-nil : {A : Type 0} {x : A} → Memᴰ x [] → ⊥
Memᴰ-nil m = elim m [ ]

pub Memᴰ-left : {A : Type 0} {x : A} (xs ys : List A) → Memᴰ x xs → Memᴰ x (xs ++ ys)
Memᴰ-left [] ys m = elim m [ ]
Memᴰ-left (y ∷ xs) ys (Memᴰ.head e) = Memᴰ.head e
Memᴰ-left (y ∷ xs) ys (Memᴰ.tail m) = Memᴰ.tail (Memᴰ-left xs ys m)

pub Memᴰ-last : {A : Type 0} (x : A) (xs : List A) → Memᴰ x (xs ++ (x ∷ []))
Memᴰ-last x [] = Memᴰ.head refl
Memᴰ-last x (y ∷ xs) = Memᴰ.tail (Memᴰ-last x xs)

pub Memᴰ-add : {A : Type 0} (x y : A) (xs : List A) → Memᴰ x (xs ++ (y ∷ [])) → Memᴰ x xs ⊎ (x ≡ y)
Memᴰ-add x y [] (Memᴰ.head e) = inr e
Memᴰ-add x y [] (Memᴰ.tail m) = absurd (Memᴰ-nil m)
Memᴰ-add x y (z ∷ xs) (Memᴰ.head e) = inl (Memᴰ.head e)
Memᴰ-add x y (z ∷ xs) (Memᴰ.tail m) = elim (Memᴰ-add x y xs m) [
  | inl earlier ↦ inl (Memᴰ.tail earlier)
  | inr e ↦ inr e
]

pub filter_map-Memᴰ :
    {A B : Type 0} (f : A → Option B) (xs : List A) {x : A} {b : B}
    → Memᴰ x xs
    → f x ≡ some b
    → Memᴰ b (filter_map f xs)
filter_map-Memᴰ f [] m h = elim m [ ]
filter_map-Memᴰ f (y ∷ ys) (Memᴰ.head e) h =
    let found = ap f (sym e) ∙ h in rw (found, filter_map) (Memᴰ.head refl)
filter_map-Memᴰ f (y ∷ ys) (Memᴰ.tail m) h =
    let later = filter_map-Memᴰ f ys m h in
    elim (Option-cases (f y)) [
      | inl nothing ↦ rw (nothing, filter_map) later
      | inr (b, found) ↦ rw (found, filter_map) (Memᴰ.tail later)
    ]
