-- ===== src/Assessment/Selection/States.antt =====
-- packages/assessment/src/service.ts: the states of the concepts as `selectAdaptiveQuestions` reads them.
use mathlib.Core.List.{Memᴰ}
use mathlib.Core.Path.{subst}
use reflo_learning.Prelude.{
  ℕ, ◌+◌, ◌≤◌, ◌≡◌, ◌≢◌, refl, sym, ap, inl, inr, String, false, Option, none, some, List, [], ◌∷◌,
  ◌++◌, map, ok, length, length-append, All, All-lookup, ===_iff, ◌===◌, units, bind_ok,
  ok-injective, throw_if, is_empty, arith, Bool-cases, suc,
}
use reflo_learning.Prelude.TextSets.{has, add, AreDistinct, has-append}
use reflo_learning.Assessment.Contracts.{invalid_input}
use reflo_learning.Assessment.Rules.{parse_unit, set_of}
use reflo_learning.Assessment.Selection.{
  ConceptSelectionState, ConceptState, or_invalid, parse_due, parse_states, state_of,
}

abbrev pub IsDate : (String → Option ℕ) → Option String → Option ℕ → Type 0
IsDate parse_date none none = Unit
IsDate parse_date (some text) (some t) = parse_date text ≡ some t
IsDate parse_date _ _ = ⊥

-- A concept's state is read as its mastery and the time that it is due at.
pub record IsState (parse_date : String → Option ℕ) (s : ConceptSelectionState)
    (p : String × ConceptState) : Type 0 where
  concept : p.0 ≡ s.concept_id
  mastery : parse_unit (units s.mastery) ≡ ok p.1.mastery
  due : IsDate parse_date s.due_at p.1.due_at

abbrev pub AreStates :
    (String → Option ℕ) → List ConceptSelectionState → List (String × ConceptState) → Type 0
AreStates parse_date [] [] = Unit
AreStates parse_date (s ∷ ss) (p ∷ ps) = IsState parse_date s p × AreStates parse_date ss ps
AreStates parse_date _ _ = ⊥

abbrev pub key_of : String × ConceptState → String
key_of p = p.0

pub or_invalid-some : {A : Type 0} (o : Option A) {a : A} → or_invalid o ≡ ok a → o ≡ some a
or_invalid-some none h = absurd (cc)
or_invalid-some (some b) h = cc

module _ (parse_date : String → Option ℕ) where
  parse_due-IsDate :
      (due : Option String) {d : Option ℕ}
      → parse_due parse_date due ≡ ok d
      → IsDate parse_date due d
  unfolding parse_due
  parse_due-IsDate none h = subst (IsDate parse_date none) (ok-injective h) tt
  parse_due-IsDate (some text) h = bind_ok (or_invalid (parse_date text)) _ h λ t dated h₁.
      subst (IsDate parse_date (some text)) (ok-injective h₁)
        (or_invalid-some (parse_date text) dated)

  pub parse_states-AreStates :
      (ss : List ConceptSelectionState) {ps : List (String × ConceptState)}
      → parse_states parse_date ss ≡ ok ps
      → AreStates parse_date ss ps × (length (map key_of ps) ≡ length ss)
  unfolding parse_states
  parse_states-AreStates [] h =
      subst (λ x. AreStates parse_date [] x × (length (map key_of x) ≡ 0)) (ok-injective h)
        (tt, refl)
  parse_states-AreStates (s ∷ ss) h = bind_ok (parse_unit (units s.mastery)) _ h λ mastery m h₁.
      bind_ok (parse_due parse_date s.due_at) _ h₁ λ due d h₂.
        bind_ok (throw_if (is_empty s.concept_id) invalid_input) _ h₂ λ u named h₃.
          bind_ok (parse_states parse_date ss) _ h₃ λ states rest h₄.
            let (are, size) = parse_states-AreStates ss rest in
            subst (λ x. AreStates parse_date (s ∷ ss) x × (length (map key_of x) ≡ suc (length ss)))
              (ok-injective h₄)
              (
                (record { concept = refl; mastery = m; due = parse_due-IsDate s.due_at d }, are),
                ap suc size,
              )

-- A `Set` of texts is no longer than they are, and as long only if they are distinct.
set_of-le : (seen xs : List String) → length (set_of seen xs) ≤ length seen + length xs
unfolding set_of add
set_of-le seen [] = omega arith
set_of-le seen (x ∷ xs) = elim (Bool-cases (has x seen)) [
  | inl old ↦ rw (old, set_of, add) (omega (arith, set_of-le seen xs))
  | inr new ↦
      rw (new, set_of, add)
        (omega (arith, set_of-le (seen ++ (x ∷ [])) xs, length-append seen (x ∷ [])))
]

untaken :
    (x : String) (seen ys : List String)
    → All (λ y. has y (seen ++ (x ∷ [])) ≡ false) ys
    → All (λ y. x ≢ y) ys × All (λ y. has y seen ≡ false) ys
untaken x seen [] h = (tt, tt)
untaken x seen (y ∷ ys) (h, hs) =
    let (differ, absent) = untaken x seen ys hs in
    (
      ((λ e. ground (arith, has-append y x seen, (===_iff x y).1 e)), differ),
      (ground (arith, has-append y x seen), absent),
    )

set_of-AreDistinct :
    (seen xs : List String)
    → length (set_of seen xs) ≡ length seen + length xs
    → AreDistinct xs × All (λ x. has x seen ≡ false) xs
unfolding set_of add
set_of-AreDistinct seen [] h = (tt, tt)
set_of-AreDistinct seen (x ∷ xs) h = elim (Bool-cases (has x seen)) [
  | inl old ↦
      let h' : length (set_of seen xs) ≡ length seen + length (x ∷ xs) =
        rw (old, set_of, add) at h in
      absurd (omega (arith, h', set_of-le seen xs))
  | inr new ↦
      let h' : length (set_of (seen ++ (x ∷ [])) xs) ≡ length seen + length (x ∷ xs) =
        rw (new, set_of, add) at h in
      let (distinct, absent) =
        set_of-AreDistinct (seen ++ (x ∷ [])) xs (omega (arith, h', length-append seen (x ∷ []))) in
      let (differ, untaken_yet) = untaken x seen xs absent in
      ((differ, distinct), (new, untaken_yet))
]

pub all_new-AreDistinct : (xs : List String) → length (set_of [] xs) ≡ length xs → AreDistinct xs
all_new-AreDistinct xs h = (set_of-AreDistinct [] xs (omega (arith, h))).0

-- The state that is got for a concept is one of the states, and of distinct concepts it is each's.
pub state_of-Memᴰ :
    (concept : String) (states : List (String × ConceptState)) {s : ConceptState}
    → state_of concept states ≡ some s
    → Memᴰ (concept, s) states
unfolding state_of
state_of-Memᴰ concept [] h = absurd (cc)
state_of-Memᴰ concept ((key, state) ∷ states) {s} h = elim (Bool-cases (key === concept)) [
  | inl here ↦
      let e : key ≡ concept = (===_iff key concept).0 here in
      let its : state ≡ s = ground arith in Memᴰ.head (λ i. (sym e i, sym its i))
  | inr away ↦ Memᴰ.tail (state_of-Memᴰ concept states (ground arith))
]

key_in :
    {p : String × ConceptState} (states : List (String × ConceptState))
    → Memᴰ p states
    → Memᴰ p.0 (map key_of states)
key_in [] m = elim m [ ]
key_in (q ∷ qs) (Memᴰ.head e) = Memᴰ.head (ap key_of e)
key_in (q ∷ qs) (Memᴰ.tail m) = Memᴰ.tail (key_in qs m)

pub Memᴰ-state_of :
    (p : String × ConceptState) (states : List (String × ConceptState))
    → AreDistinct (map key_of states)
    → Memᴰ p states
    → state_of p.0 states ≡ some p.1
unfolding state_of
Memᴰ-state_of p [] d m = elim m [ ]
Memᴰ-state_of p (q ∷ qs) d (Memᴰ.head e) =
    rw ((===_iff q.0 p.0).1 (sym (ap key_of e)))
      (ap (λ (x : String × ConceptState). some x.1) (sym e))
Memᴰ-state_of p (q ∷ qs) (other, d) (Memᴰ.tail m) = elim (Bool-cases (q.0 === p.0)) [
  | inl here ↦
      absurd
        (All-lookup (λ y. q.0 ≢ y) (map key_of qs) other (key_in qs m) ((===_iff q.0 p.0).0 here))
  | inr away ↦ rw (away, state_of) (Memᴰ-state_of p qs d m)
]
