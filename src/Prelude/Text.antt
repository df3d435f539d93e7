-- ===== src/Prelude/Text.antt =====
-- Strings as the program walks and orders them: by their UTF-16 code units.
use Prim.Native.Char.{code}
use Prim.Native.Nat.{ℕ, zero, suc, ◌+◌, ◌-◌, ◌/◌, ◌%◌, compare, Ordering}
use Prim.Native.String.{String}
use mathlib.Core.Path.{◌≡◌, refl}
use native.Mathlib.Omega.{arith}
use mathlib.Core.Bool.{Bool, true, false, ◌&&◌, ◌||◌}
use mathlib.Core.List.{List, [], ◌∷◌, ◌++◌, reverse}
use mathlib.Core.Option.{Option, none, some}
use reflo_learning.Prelude.Lists.{length, all, All}
use reflo_learning.Prelude.Tests.{ltb, leb, ◌==◌, if◌then◌else◌}

-- A code point above the basic plane is two surrogates.
unfoldable pub units : String → List ℕ
units String.[] = []
units (String.◌∷◌ c s) =
    let rest = units s in
    if ltb (code c) 65536
    then code c ∷ rest
    else (55296 + (code c - 65536) / 1024) ∷ (56320 + (code c - 65536) % 1024) ∷ rest

-- `s.length === 0`.
abbrev pub is_empty : String → Bool
is_empty String.[] = true
is_empty (String.◌∷◌ c s) = false

unfoldable pub units_eq : List ℕ → List ℕ → Bool
units_eq [] [] = true
units_eq (x ∷ xs) (y ∷ ys) = (x == y) && units_eq xs ys
units_eq _ _ = false

-- `<` and `>` on strings: lexicographic on code units.
unfoldable pub compare_units : List ℕ → List ℕ → Ordering
compare_units [] [] = Ordering.eq
compare_units [] (y ∷ ys) = Ordering.lt
compare_units (x ∷ xs) [] = Ordering.gt
compare_units (x ∷ xs) (y ∷ ys) = elim (compare x y) [
  | Ordering.lt ↦ Ordering.lt
  | Ordering.eq ↦ compare_units xs ys
  | Ordering.gt ↦ Ordering.gt
]

-- `\d`
abbrev pub is_digit : ℕ → Bool
is_digit c = leb b'0' c && leb c b'9'

-- `/^[a-f0-9]{64}$/`
unfoldable pub is_digest : String → Bool
is_digest value =
    let cs = units value in
    length cs == 64 && all (λ c. is_digit c || (leb b'a' c && leb c b'f')) cs

-- `\d{n}`, a literal character, and `\d{0,n}` taken greedily: what is left to match.
unfoldable pub eat_digits : ℕ → List ℕ → Option (List ℕ)
eat_digits zero cs = some cs
eat_digits (suc n) [] = none
eat_digits (suc n) (c ∷ cs) = if is_digit c then eat_digits n cs else none

unfoldable pub eat : ℕ → List ℕ → Option (List ℕ)
eat x [] = none
eat x (c ∷ cs) = if c == x then some cs else none

unfoldable pub span_digits : ℕ → List ℕ → List ℕ × List ℕ
span_digits zero cs = ([], cs)
span_digits (suc n) [] = ([], [])
span_digits (suc n) (c ∷ cs) =
    let (ds, rest) = span_digits n cs in if is_digit c then (c ∷ ds, rest) else ([], c ∷ cs)

pub units_eq_refl : (xs : List ℕ) → units_eq xs xs ≡ true
unfolding units_eq
units_eq_refl [] = refl
units_eq_refl (x ∷ xs) = ground (arith, units_eq_refl xs)

pub eq_of_units_eq : (xs ys : List ℕ) → units_eq xs ys ≡ true → xs ≡ ys
unfolding units_eq
eq_of_units_eq [] [] h = refl
eq_of_units_eq [] (y ∷ ys) h = cc
eq_of_units_eq (x ∷ xs) [] h = cc
eq_of_units_eq (x ∷ xs) (y ∷ ys) h = ground (arith, eq_of_units_eq xs ys)

-- What `trim` and `\s` take for white space.
unfoldable pub is_space : ℕ → Bool
is_space c =
    (leb 9 c && leb c 13)
    || (c == 32)
    || (c == 0xA0)
    || (c == 0x1680)
    || (leb 0x2000 c && leb c 0x200A)
    || (c == 0x2028)
    || (c == 0x2029)
    || (c == 0x202F)
    || (c == 0x205F)
    || (c == 0x3000)
    || (c == 0xFEFF)

unfoldable pub trim_start : List ℕ → List ℕ
unfolding is_space
trim_start [] = []
trim_start (c ∷ cs) = if is_space c then trim_start cs else c ∷ cs

unfoldable pub trim : List ℕ → List ℕ
unfolding trim_start
trim cs = reverse (trim_start (reverse (trim_start cs)))

-- A character in front of the first part.
push_first : ℕ → List (List ℕ) → List (List ℕ)
push_first c [] = (c ∷ []) ∷ []
push_first c (part ∷ parts) = (c ∷ part) ∷ parts

-- `text.split(separator)` for a separator of one character: never the empty list.
unfoldable pub split : ℕ → List ℕ → List (List ℕ)
unfolding push_first
split x [] = [] ∷ []
split x (c ∷ cs) = if c == x then [] ∷ split x cs else push_first c (split x cs)

abbrev pub HasNo : ℕ → List ℕ → Type 0
HasNo x = All (λ c. (c == x) ≡ false)

pub split-HasNo : (x : ℕ) (cs : List ℕ) → HasNo x cs → split x cs ≡ cs ∷ []
unfolding split push_first
split-HasNo x [] h = refl
split-HasNo x (c ∷ cs) (h, hs) = rw (h, split-HasNo x cs hs) refl

pub split-first : (x : ℕ) (cs ds : List ℕ) → HasNo x cs → split x (cs ++ (x ∷ ds)) ≡ cs ∷ split x ds
unfolding split push_first
split-first x [] ds h = let same : (x == x) ≡ true = ground arith in rw same refl
split-first x (c ∷ cs) ds (h, hs) = rw (h, split-first x cs ds hs) refl
