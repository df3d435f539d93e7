-- ===== src/Prelude/Selections/Priority.antt =====
-- The loop that takes items in turn, on items in an order: what is passed over is not before what is
-- selected.
use mathlib.Core.Path.{◌≡◌, refl, subst}
use mathlib.Core.Logic.{◌⊎◌, inl, inr}
use mathlib.Core.Bool.{true, false, ◌||◌}
use mathlib.Core.List.{List, [], ◌∷◌, ◌++◌, map}
use Prim.Native.Nat.{ℕ}
use Prim.Native.String.{String}
use native.Mathlib.Omega.{arith}
use reflo_learning.Prelude.Tests.{◌==◌, Bool-cases}
use reflo_learning.Prelude.Lists.{length, All, All-map, All-append, All-swap}
use reflo_learning.Prelude.Sorting.{IsOrdered}
use reflo_learning.Prelude.TextSets.{has, add, has_last, has_kept, add_new}
use reflo_learning.Prelude.Selections.{collect, IsUnderWay, IsCovered, take_next, map-append}

module _ {A : Type 0} (key : A → String) (le : A → A → Type 0) (taken : List String) where
  append-IsOrdered :
      (xs : List A) (y : A) → IsOrdered le xs → All (λ x. le x y) xs → IsOrdered le (xs ++ (y ∷ []))
  append-IsOrdered [] y h p = (tt, tt)
  append-IsOrdered (x ∷ xs) y (first, rest) (p, ps) =
      (All-append (le x) xs (y ∷ []) first (p, tt), append-IsOrdered xs y rest ps)

  -- What is selected stays selected.
  collect-keeps :
      (s : String) (limit : ℕ) (seen : List String) (selected items : List A)
      → has s (map key selected) ≡ true
      → has s (map key (collect key limit seen selected items)) ≡ true
  unfolding collect add
  collect-keeps s limit seen selected [] h = h
  collect-keeps s limit seen selected (item ∷ items) h = elim (Bool-cases (has (key item) seen)) [
    | inl old ↦ rw (old, collect, add) (collect-keeps s limit seen selected items h)
    | inr new ↦
        let h' : has s (map key (selected ++ (item ∷ []))) ≡ true =
          rw (map-append key selected item) (has_kept s (key item) (map key selected) h) in
        elim (Bool-cases (length (selected ++ (item ∷ [])) == limit)) [
          | inl full ↦ rw (new, full, collect, add) h'
          | inr more ↦
              rw (new, more, collect, add)
                (collect-keeps s limit (seen ++ (key item ∷ [])) (selected ++ (item ∷ [])) items h')
        ]
  ]

  -- Covered, or not before any item of the selection.
  abbrev pub IsPassed : List A → A → Type 0
  IsPassed selected item = IsCovered key taken selected item ⊎ All (λ s. le s item) selected

  collect-covers :
      (s : String) (limit : ℕ) (seen : List String) (selected items : List A)
      → IsUnderWay key taken seen selected
      → has s seen ≡ true
      → (has s taken || has s (map key (collect key limit seen selected items))) ≡ true
  collect-covers s limit seen selected items u h = elim (Bool-cases (has s (map key selected))) [
    | inl here ↦ ground (arith, collect-keeps s limit seen selected items here)
    | inr away ↦ ground (arith, u.same s)
  ]

  abbrev Goal : List A → List A → Type 0
  Goal items r = IsOrdered le r × All (IsPassed r) items

  collect_old :
      (limit : ℕ) (seen : List String) (selected : List A) (item : A) (items : List A)
      → has (key item) seen ≡ true
      → collect key limit seen selected items ≡ collect key limit seen selected (item ∷ items)
  unfolding collect add
  collect_old limit seen selected item items old = rw (old, collect, add) refl

  collect_full :
      (limit : ℕ) (seen : List String) (selected : List A) (item : A) (items : List A)
      → has (key item) seen ≡ false
      → (length (selected ++ (item ∷ [])) == limit) ≡ true
      → selected ++ (item ∷ []) ≡ collect key limit seen selected (item ∷ items)
  unfolding collect add
  collect_full limit seen selected item items new full = rw (new, full, collect, add) refl

  collect_more :
      (limit : ℕ) (seen : List String) (selected : List A) (item : A) (items : List A)
      → has (key item) seen ≡ false
      → (length (selected ++ (item ∷ [])) == limit) ≡ false
      → collect key limit (seen ++ (key item ∷ [])) (selected ++ (item ∷ [])) items
        ≡ collect key limit seen selected (item ∷ items)
  unfolding collect add
  collect_more limit seen selected item items new more = rw (new, more, collect, add) refl

  pub collect-IsOrdered :
      (limit : ℕ) (seen : List String) (selected items : List A)
      → IsUnderWay key taken seen selected
      → IsOrdered le items
      → IsOrdered le selected
      → All (λ s. All (le s) items) selected
      → IsOrdered le (collect key limit seen selected items)
        × All (IsPassed (collect key limit seen selected items)) items
  unfolding collect
  collect-IsOrdered limit seen selected [] u ordered so_far before = (so_far, tt)
  collect-IsOrdered limit seen selected (item ∷ items) u (first, rest) so_far before =
      let later : All (λ s. All (le s) items) selected = All-map _ _ (λ s p. p.1) selected before in
      let now : All (λ s. le s item) selected = All-map _ _ (λ s p. p.0) selected before in
      elim (Bool-cases (has (key item) seen)) [
        | inl old ↦
            let (ordered, passed) =
              collect-IsOrdered limit seen selected items u rest so_far later in
            subst (Goal (item ∷ items)) (collect_old limit seen selected item items old)
              (ordered, (inl (collect-covers (key item) limit seen selected items u old), passed))
        | inr new ↦
            let u' : IsUnderWay key taken (seen ++ (key item ∷ [])) (selected ++ (item ∷ [])) =
              subst (λ x. IsUnderWay key taken x (selected ++ (item ∷ [])))
                (add_new (key item) seen new) (take_next key taken seen selected item u new) in
            let so_far' = append-IsOrdered selected item so_far now in
            let before' : All (λ s. All (le s) items) (selected ++ (item ∷ [])) =
              All-append (λ s. All (le s) items) selected (item ∷ []) later (first, tt) in
            elim (Bool-cases (length (selected ++ (item ∷ [])) == limit)) [
              | inl full ↦
                  let here =
                    collect-covers (key item) (length (selected ++ (item ∷ [])))
                      (seen ++ (key item ∷ [])) (selected ++ (item ∷ [])) [] u'
                      (has_last (key item) seen) in
                  subst (Goal (item ∷ items)) (collect_full limit seen selected item items new full)
                    (
                      so_far',
                      (
                        inl here,
                        All-map _ _ (λ y p. inr p) items
                            (All-swap le (selected ++ (item ∷ [])) items before'),
                      ),
                    )
              | inr more ↦
                  let (ordered, passed) =
                    collect-IsOrdered limit (seen ++ (key item ∷ [])) (selected ++ (item ∷ []))
                      items u' rest so_far' before' in
                  subst (Goal (item ∷ items)) (collect_more limit seen selected item items new more)
                    (
                      ordered,
                      (
                        inl (
                            collect-covers (key item) limit (seen ++ (key item ∷ []))
                              (selected ++ (item ∷ [])) items u' (has_last (key item) seen)),
                        passed,
                      ),
                    )
            ]
      ]
