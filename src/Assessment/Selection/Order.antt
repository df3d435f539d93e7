-- ===== src/Assessment/Selection/Order.antt =====
-- packages/assessment/src/service.ts: the order that the comparison of candidates keeps.
use Prim.Native.Nat.{Ordering, compare}
use reflo_learning.Prelude.{ℕ, ◌≡◌, ◌⊎◌, inl, inr, ◌<◌, ◌≤◌, ltb, arith, Bool-cases}
use reflo_learning.Prelude.Sorting.{Decides}
use reflo_learning.Assessment.Selection.{Candidate, then_by, compare_candidates}

-- Due questions stand first, and among those that are due or are not, the weaker concepts.
abbrev pub Before : Candidate → Candidate → Type 0
Before a b =
    (a.due_rank < b.due_rank)
    ⊎ ((a.due_rank ≡ b.due_rank) × (a.weakest_mastery ≤ b.weakest_mastery))

pub Before-trans : (x y z : Candidate) → Before x y → Before y z → Before x z
Before-trans x y z p q = ground arith

-- A comparison of two numbers, and what it is then known by.
data IsCompared (a b : ℕ) : Ordering → Type 0 where
  less : a < b → IsCompared a b Ordering.lt
  same : a ≡ b → IsCompared a b Ordering.eq
  more : b < a → IsCompared a b Ordering.gt

compare-IsCompared : (a b : ℕ) → IsCompared a b (compare a b)
compare-IsCompared a b = elim (Bool-cases (ltb a b)) [
  | inl p ↦ let e : compare a b ≡ Ordering.lt = ground arith in rw e (less (ground arith))
  | inr p ↦ elim (Bool-cases (ltb b a)) [
    | inl q ↦ let e : compare a b ≡ Ordering.gt = ground arith in rw e (more (ground arith))
    | inr q ↦ let e : compare a b ≡ Ordering.eq = ground arith in rw e (same (ground arith))
  ]
]

then_by-Decides :
    (a b c d : ℕ) (first second rest : Ordering)
    → IsCompared a b first
    → IsCompared c d second
    → Decides
        (then_by first (then_by second rest))
        ((a < b) ⊎ ((a ≡ b) × (c ≤ d)))
        ((b < a) ⊎ ((b ≡ a) × (d ≤ c)))
then_by-Decides a b c d Ordering.lt second rest (less p) q = inl p
then_by-Decides a b c d Ordering.gt second rest (more p) q = inl p
then_by-Decides a b c d Ordering.eq Ordering.lt rest (same p) (less q) = inr (p, omega arith)
then_by-Decides a b c d Ordering.eq Ordering.gt rest (same p) (more q) =
    inr (omega arith, omega arith)
then_by-Decides a b c d Ordering.eq Ordering.eq Ordering.lt (same p) (same q) = inr (p, omega arith)
then_by-Decides a b c d Ordering.eq Ordering.eq Ordering.eq (same p) (same q) = inr (p, omega arith)
then_by-Decides a b c d Ordering.eq Ordering.eq Ordering.gt (same p) (same q) =
    inr (omega arith, omega arith)

pub compare_candidates-Decides :
    (x y : Candidate) → Decides (compare_candidates x y) (Before x y) (Before y x)
unfolding compare_candidates
compare_candidates-Decides x y =
    then_by-Decides x.due_rank y.due_rank x.weakest_mastery y.weakest_mastery _ _ _
      (compare-IsCompared x.due_rank y.due_rank)
      (compare-IsCompared x.weakest_mastery y.weakest_mastery)
