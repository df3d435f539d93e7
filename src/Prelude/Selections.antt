-- ===== src/Prelude/Selections.antt =====
-- A loop that takes items in turn, up to a limit, and passes over an item whose key it has seen.
pub mod Priority
use mathlib.Core.Path.{◌≡◌, refl, sym, ap, ◌∙◌, subst}
use mathlib.Core.Logic.{inl, inr}
use mathlib.Core.Bool.{Bool, true, false, not, ◌&&◌, ◌||◌}
use mathlib.Core.List.{List, [], ◌∷◌, ◌++◌, map}
use Prim.Native.Nat.{ℕ, ◌≤◌, ◌<◌}
use Prim.Native.String.{String}
use native.Mathlib.Omega.{arith}
use reflo_learning.Prelude.Tests.{◌==◌, if◌then◌else◌, Bool-cases}
use reflo_learning.Prelude.Lists.{length, length-append, All, All-append}
use reflo_learning.Prelude.TextSets.{
  has, add, AreDistinct, append-AreDistinct, ne_of_absent, has-append, has_last, has_kept, add_new,
}

or_none : (b : Bool) → b ≡ (b || false)
or_none b = ground arith

module _ {A : Type 0} (key : A → String) where
  unfoldable pub collect : ℕ → List String → List A → List A → List A
  collect limit seen selected [] = selected
  collect limit seen selected (item ∷ items) =
      let is_seen = has (key item) seen in
      let seen' = add (key item) seen in
      let selected' = if is_seen then selected else selected ++ (item ∷ []) in
      let rest = collect limit seen' selected' items in
      if not is_seen && length selected' == limit then selected' else rest

  -- What holds of what is selected and of what is offered holds of the selection.
  pub collect-All {κ} :
      (P : A → Type κ) (limit : ℕ) (seen : List String) (selected items : List A)
      → All P selected
      → All P items
      → All P (collect limit seen selected items)
  unfolding collect add
  collect-All P limit seen selected [] p q = p
  collect-All P limit seen selected (item ∷ items) p (h, q) =
      elim (Bool-cases (has (key item) seen)) [
        | inl old ↦ rw (old, collect, add) (collect-All P limit seen selected items p q)
        | inr new ↦
            let p' = All-append P selected (item ∷ []) p (h, tt) in
            elim (Bool-cases (length (selected ++ (item ∷ [])) == limit)) [
              | inl full ↦ rw (new, full, collect, add) p'
              | inr more ↦
                  rw (new, more, collect, add)
                    (collect-All P limit (seen ++ (key item ∷ [])) (selected ++ (item ∷ [])) items
                      p' q)
            ]
      ]

  pub map-append : (xs : List A) (y : A) → map key (xs ++ (y ∷ [])) ≡ map key xs ++ (key y ∷ [])
  map-append [] y = refl
  map-append (x ∷ xs) y = ap (λ hs. key x ∷ hs) (map-append xs y)

  -- The loop is where it should be: `seen` has what was taken and what is selected.
  pub record IsUnderWay (taken seen : List String) (selected : List A) : Type 0 where
    same : (s : String) → has s seen ≡ (has s taken || has s (map key selected))
    distinct : AreDistinct (map key selected)
    untaken : All (λ i. has (key i) taken ≡ false) selected

  -- An item that is in the selection, or repeats one of it, or was taken.
  abbrev pub IsCovered : List String → List A → A → Type 0
  IsCovered taken selected item = (has (key item) taken || has (key item) (map key selected)) ≡ true

  -- No item was taken before, no two have the same prompt, there are at most `limit`, and if
  -- there are fewer, every item is covered.
  pub record IsSelection (limit : ℕ) (taken : List String) (items selected : List A) : Type 0 where
    pub distinct : AreDistinct (map key selected)
    pub untaken : All (λ i. has (key i) taken ≡ false) selected
    pub few : length selected ≤ limit
    pub complete : length selected < limit → All (IsCovered taken selected) items

  module _ (taken : List String) where
    pub take_next :
        (seen : List String) (selected : List A) (item : A)
        → IsUnderWay taken seen selected
        → has (key item) seen ≡ false
        → IsUnderWay taken (add (key item) seen) (selected ++ (item ∷ []))
    unfolding add
    take_next seen selected item u new =
        let absent : has (key item) (map key selected) ≡ false =
          ground (arith, u.same (key item)) in
        rw new (record {
          same = λ s.
              rw (has-append s (key item) seen, map-append selected item)
                (rw (has-append s (key item) (map key selected)) (ground (arith, u.same s)));
          distinct = rw (map-append selected item) (
              append-AreDistinct (key item) (map key selected)
                (ne_of_absent (key item) (map key selected) absent) u.distinct);
          untaken =
              All-append _ selected (item ∷ []) u.untaken (ground (arith, u.same (key item)), tt);
        })

    -- What was covered stays covered when the loop goes on.
    pub collect-IsSelection :
        (limit : ℕ) (seen : List String) (selected items : List A)
        → IsUnderWay taken seen selected
        → length selected < limit
        → IsSelection limit taken items (collect limit seen selected items)
          × ((s : String)
              → has s seen ≡ true
              → length (collect limit seen selected items) < limit
              → (has s taken || has s (map key (collect limit seen selected items))) ≡ true)
    unfolding collect add
    collect-IsSelection limit seen selected [] u room = (
      record { distinct = u.distinct; untaken = u.untaken; few = omega arith; complete = λ l. tt },
      (λ s h l. sym (u.same s) ∙ h),
    )
    collect-IsSelection limit seen selected (item ∷ items) u room =
        elim (Bool-cases (has (key item) seen)) [
          | inl old ↦
              let (next, kept) = collect-IsSelection limit seen selected items u room in
              rw (old, collect, add)
                (
                  record {
                    distinct = next.distinct;
                    untaken = next.untaken;
                    few = next.few;
                    complete = λ l. (kept (key item) old l, next.complete l);
                  },
                  kept,
                )
          | inr new ↦
              let u' = take_next seen selected item u new in
              let size = length-append selected (item ∷ []) in
              elim (Bool-cases (length (selected ++ (item ∷ [])) == limit)) [
                | inl full ↦
                    let all : length (selected ++ (item ∷ [])) ≡ limit = ground arith in
                    rw (new, full, collect, add)
                      (
                        record {
                          distinct = u'.distinct;
                          untaken = u'.untaken;
                          few = omega arith;
                          complete = λ l. absurd (omega arith);
                        },
                        (λ s h l. absurd (omega arith)),
                      )
                | inr more ↦
                    let here : has (key item) (seen ++ (key item ∷ [])) ≡ true =
                      has_last (key item) seen in
                    let (next, kept) =
                      collect-IsSelection limit (seen ++ (key item ∷ [])) (selected ++ (item ∷ []))
                        items
                        (subst (λ x. IsUnderWay taken x (selected ++ (item ∷ [])))
                          (add_new (key item) seen new) u')
                        (ground arith) in
                    rw (new, more, collect, add)
                      (
                        record {
                          distinct = next.distinct;
                          untaken = next.untaken;
                          few = next.few;
                          complete = λ l. (kept (key item) here l, next.complete l);
                        },
                        (λ s h l. kept s (has_kept s (key item) seen h) l),
                      )
              ]
        ]

  pub none_taken : (taken : List String) → IsUnderWay taken taken []
  none_taken taken = record { same = λ s. or_none (has s taken); distinct = tt; untaken = tt }
