-- ===== src/Prelude/Sorting.antt =====
-- `array.sort(compare)`: a stable sort. The result of every stable sort by a consistent comparison
-- is that of insertion sort.
use Prim.Native.Nat.{Ordering}
use mathlib.Core.List.{List, [], ◌∷◌, Perm}
use mathlib.Core.List.Perm
use reflo_learning.Prelude.Lists.{All, All-map}

module _ {ℓ} {A : Type ℓ} (compare : A → A → Ordering) where
  -- Before the first item that is not smaller, so equal items keep their order.
  insert_sorted : A → List A → List A
  insert_sorted x [] = x ∷ []
  insert_sorted x (y ∷ ys) = elim (compare x y) [
    | Ordering.gt ↦ y ∷ insert_sorted x ys
    | _ ↦ x ∷ y ∷ ys
  ]

  unfoldable pub sort : List A → List A
  unfolding insert_sorted
  sort [] = []
  sort (x ∷ xs) = insert_sorted x (sort xs)

  insert_sorted-perm : (x : A) (ys : List A) → Perm (insert_sorted x ys) (x ∷ ys)
  unfolding insert_sorted
  insert_sorted-perm x [] = Perm.refl (x ∷ [])
  insert_sorted-perm x (y ∷ ys) =
      (elim (compare x y)
        as (λ o.
          Perm (elim o [ Ordering.gt ↦ y ∷ insert_sorted x ys | _ ↦ x ∷ y ∷ ys ]) (x ∷ y ∷ ys)) [
            | Ordering.gt ↦ Perm.trans (Perm.cons y (insert_sorted-perm x ys)) (Perm.swap x y ys)
            | _ ↦ Perm.refl (x ∷ y ∷ ys)
          ])

  insert_sorted-All {κ} :
      (P : A → Type κ) (x : A) (ys : List A) → P x → All P ys → All P (insert_sorted x ys)
  unfolding insert_sorted
  insert_sorted-All P x [] p h = (p, tt)
  insert_sorted-All P x (y ∷ ys) p h =
      (elim (compare x y)
        as (λ o. All P (elim o [ Ordering.gt ↦ y ∷ insert_sorted x ys | _ ↦ x ∷ y ∷ ys ])) [
          | Ordering.gt ↦ (h.0, insert_sorted-All P x ys p h.1)
          | _ ↦ (p, h)
        ])

  pub sort-All {κ} : (P : A → Type κ) (xs : List A) → All P xs → All P (sort xs)
  unfolding sort
  sort-All P [] h = tt
  sort-All P (x ∷ xs) h = insert_sorted-All P x (sort xs) h.0 (sort-All P xs h.1)

  pub sort-perm : (xs : List A) → Perm (sort xs) xs
  unfolding sort
  sort-perm [] = Perm.refl []
  sort-perm (x ∷ xs) = Perm.trans (insert_sorted-perm x (sort xs)) (Perm.cons x (sort-perm xs))

  insert_sorted-All-back {κ} :
      (P : A → Type κ) (x : A) (ys : List A) → All P (insert_sorted x ys) → P x × All P ys
  unfolding insert_sorted
  insert_sorted-All-back P x [] = λ h. h
  insert_sorted-All-back P x (y ∷ ys) =
      (elim (compare x y)
        as (λ o.
          All P (elim o [ Ordering.gt ↦ y ∷ insert_sorted x ys | _ ↦ x ∷ y ∷ ys ])
          → P x × All P (y ∷ ys)) [
            | Ordering.gt ↦ λ h. let (p, q) = insert_sorted-All-back P x ys h.1 in (p, (h.0, q))
            | _ ↦ λ h. h
          ])

  pub sort-All-back {κ} : (P : A → Type κ) (xs : List A) → All P (sort xs) → All P xs
  unfolding sort
  sort-All-back P [] h = tt
  sort-All-back P (x ∷ xs) h =
      let (p, q) = insert_sorted-All-back P x (sort xs) h in (p, sort-All-back P xs q)

abbrev pub IsOrdered {ℓ} : {A : Type ℓ} → (A → A → Type 0) → List A → Type 0
IsOrdered le [] = Unit
IsOrdered le (x ∷ xs) = All (le x) xs × IsOrdered le xs

-- What the result of a comparison says.
abbrev pub Decides : Ordering → Type 0 → Type 0 → Type 0
Decides Ordering.gt up down = down
Decides _ up down = up

-- Sorting by a comparison that decides an order puts the items in that order. Items that the order
-- does not tell apart may be told apart by the comparison.
module _ {ℓ} {A : Type ℓ} (compare : A → A → Ordering) (le : A → A → Type 0)
    (le_trans : (x y z : A) → le x y → le y z → le x z)
    (decides : (x y : A) → Decides (compare x y) (le x y) (le y x)) where
  insert_sorted-IsOrdered :
      (x : A) (ys : List A) → IsOrdered le ys → IsOrdered le (insert_sorted compare x ys)
  unfolding insert_sorted
  insert_sorted-IsOrdered x [] h = (tt, tt)
  insert_sorted-IsOrdered x (y ∷ ys) (first, rest) =
      (elim (compare x y)
          as (λ o.
            Decides o (le x y) (le y x)
            → IsOrdered le
                (elim o [ Ordering.gt ↦ y ∷ insert_sorted compare x ys | _ ↦ x ∷ y ∷ ys ])) [
                  | Ordering.gt ↦ λ below. (
                    insert_sorted-All compare (le y) x ys below first,
                    insert_sorted-IsOrdered x ys rest,
                  )
                  | _ ↦ λ below. (
                    (below, All-map (le y) (le x) (λ z. le_trans x y z below) ys first),
                    (first, rest),
                  )
                ])
        (decides x y)

  pub sort-IsOrdered : (xs : List A) → IsOrdered le (sort compare xs)
  unfolding sort
  sort-IsOrdered [] = tt
  sort-IsOrdered (x ∷ xs) = insert_sorted-IsOrdered x (sort compare xs) (sort-IsOrdered xs)
