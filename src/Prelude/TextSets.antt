-- ===== src/Prelude/TextSets.antt =====
-- A `Set` of strings: a list in the order of insertion.
use mathlib.Core.Path.{◌≡◌, refl, sym}
use mathlib.Core.Logic.{◌≢◌, inl, inr}
use mathlib.Core.Bool.{Bool, true, false, ◌||◌}
use mathlib.Core.List.{List, [], ◌∷◌, ◌++◌, Memᴰ}
use Prim.Native.String.{String}
use native.Mathlib.Omega.{arith}
use reflo_learning.Prelude.Tests.{◌===◌, ===_iff, if◌then◌else◌, Bool-cases}
use reflo_learning.Prelude.Lists.{any, All, All-append}

abbrev pub has : String → List String → Bool
has s = any (λ t. t === s)

unfoldable pub add : String → List String → List String
add s set = if has s set then set else set ++ (s ∷ [])

abbrev pub AreDistinct : List String → Type 0
AreDistinct [] = Unit
AreDistinct (x ∷ xs) = All (λ y. x ≢ y) xs × AreDistinct xs

pub ne_of_absent : (s : String) (xs : List String) → has s xs ≡ false → All (λ y. y ≢ s) xs
ne_of_absent s [] h = tt
ne_of_absent s (x ∷ xs) h =
    let first : (x === s) ≡ false = ground arith in
    ((λ e. ground (arith, ===_iff x s)), ne_of_absent s xs (ground arith))

pub append-AreDistinct :
    (s : String) (xs : List String)
    → All (λ y. y ≢ s) xs
    → AreDistinct xs
    → AreDistinct (xs ++ (s ∷ []))
append-AreDistinct s [] h d = (tt, tt)
append-AreDistinct s (x ∷ xs) h d =
    (All-append (λ y. x ≢ y) xs (s ∷ []) d.0 (h.0, tt), append-AreDistinct s xs h.1 d.1)

pub has-append :
    (s t : String) (xs : List String) → has s (xs ++ (t ∷ [])) ≡ (has s xs || (t === s))
has-append s t [] = ground arith
has-append s t (x ∷ xs) = ground (arith, has-append s t xs)

pub has_last : (s : String) (xs : List String) → has s (xs ++ (s ∷ [])) ≡ true
has_last s xs = ground (arith, has-append s s xs, ===_iff s s)

pub has_kept : (s t : String) (xs : List String) → has s xs ≡ true → has s (xs ++ (t ∷ [])) ≡ true
has_kept s t xs h = ground (arith, has-append s t xs)

pub add_new : (s : String) (xs : List String) → has s xs ≡ false → add s xs ≡ xs ++ (s ∷ [])
unfolding add
add_new s xs h = rw h refl

pub has-Memᴰ : (s : String) (xs : List String) → Memᴰ s xs → has s xs ≡ true
has-Memᴰ s [] m = elim m [ ]
has-Memᴰ s (x ∷ xs) (Memᴰ.head e) = ground (arith, (===_iff x s).1 (sym e))
has-Memᴰ s (x ∷ xs) (Memᴰ.tail m) = ground (arith, has-Memᴰ s xs m)

pub Memᴰ-has : (s : String) (xs : List String) → has s xs ≡ true → Memᴰ s xs
Memᴰ-has s [] h = absurd (cc)
Memᴰ-has s (x ∷ xs) h = elim (Bool-cases (x === s)) [
  | inl here ↦ Memᴰ.head (sym ((===_iff x s).0 here))
  | inr away ↦ Memᴰ.tail (Memᴰ-has s xs (ground arith))
]
