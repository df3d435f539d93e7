-- ===== src/Retrieval/Partition/Sections.antt =====
-- packages/retrieval/src/curriculum.ts: the section of a span, `samePath` and the path that a group has.
use mathlib.Core.Path.{ap₂, subst}
use reflo_learning.Prelude.{
  ◌≡◌, ◌≢◌, refl, sym, ap, String, true, Option, none, some, List, [], ◌∷◌, ===_iff, arith,
  if◌then◌else◌,
}
use reflo_learning.Retrieval.Partition.{same_path, same_section_path, is_nil}

-- The section that a group's path stands for: a span with no path is in no section.
abbrev pub HasSection : Option (List String) → List String → Type 0
HasSection none path = path ≡ []
HasSection (some p) path = (path ≡ p) × (p ≢ [])

same_path-eq : (xs ys : List String) → same_path xs ys ≡ true → xs ≡ ys
unfolding same_path
same_path-eq [] [] h = refl
same_path-eq [] (y ∷ ys) h = absurd (cc)
same_path-eq (x ∷ xs) [] h = absurd (cc)
same_path-eq (x ∷ xs) (y ∷ ys) h =
    let rest : same_path xs ys ≡ true = ground arith in
    ap₂ ◌∷◌ (ground (arith, ===_iff x y)) (same_path-eq xs ys rest)

pub same_section_path-eq : (p q : Option (List String)) → same_section_path p q ≡ true → p ≡ q
same_section_path-eq none none h = refl
same_section_path-eq none (some q) h = absurd (cc)
same_section_path-eq (some p) none h = absurd (cc)
same_section_path-eq (some p) (some q) h = ap some (same_path-eq p q h)

own_section : (path : List String) → HasSection (if is_nil path then none else some path) path
own_section [] = refl
own_section (x ∷ xs) = (refl, λ e. cc)

-- A path that stands for a span's section is the path that a group of the span has.
pub HasSection-eq :
    (q : Option (List String)) (path : List String)
    → HasSection q path
    → q ≡ (if is_nil path then none else some path)
HasSection-eq none [] h = refl
HasSection-eq none (x ∷ xs) h = absurd (cc)
HasSection-eq (some p) [] (e, n) = absurd (n (sym e))
HasSection-eq (some p) (x ∷ xs) (e, n) = ap some (sym e)

pub section_of :
    (q : Option (List String)) (path : List String)
    → q ≡ (if is_nil path then none else some path)
    → HasSection q path
section_of q path e = subst (λ x. HasSection x path) (sym e) (own_section path)

same_path_refl : (xs : List String) → same_path xs xs ≡ true
unfolding same_path
same_path_refl [] = refl
same_path_refl (x ∷ xs) = ground (arith, ===_iff x x, same_path_refl xs)

pub same_section_path_refl : (q : Option (List String)) → same_section_path q q ≡ true
same_section_path_refl none = refl
same_section_path_refl (some p) = same_path_refl p
