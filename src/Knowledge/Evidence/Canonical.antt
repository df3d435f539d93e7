-- ===== src/Knowledge/Evidence/Canonical.antt =====
-- packages/knowledge-model/src/replay.ts: `canonicalizeEvidence` when evidence is delivered again.
use text.Mathlib.TextPositions.{eq_refl}
use mathlib.Core.List.{Memᴰ}
use reflo_learning.Prelude.{
  ℕ, ◌≡◌, refl, Bool, true, false, Option, none, some, List, [], ◌∷◌, ◌++◌, ok, >>=-eq-ok,
  ok-injective, arith, units_eq_refl, All, All-map, All-lookup,
}
use reflo_learning.Knowledge.Contracts.{PerConceptEvidence, Instant, since, before}
use reflo_learning.Knowledge.Evidence.{
  ValidatedEvidence, Unique, get_unique, merge, same_evidence, evidence_identity, bool_eq,
  option_eq, instant_eq, validate_evidence, observe, observe_all, canonicalize_evidence,
}
use reflo_learning.Knowledge.Evidence.Merge.{Merged, added, known, observe-ok}

instant_eq_refl : (t : Instant) → instant_eq t t ≡ true
instant_eq_refl (since n) = ground arith
instant_eq_refl (before n) = ground arith

option_eq_refl : (o : Option ℕ) → option_eq o o ≡ true
option_eq_refl none = refl
option_eq_refl (some n) = ground arith

bool_eq_refl : (b : Bool) → bool_eq b b ≡ true
bool_eq_refl true = refl
bool_eq_refl false = refl

same_evidence_refl : (v : ValidatedEvidence) → same_evidence v v ≡ true
unfolding same_evidence
same_evidence_refl v = simp (instant_eq_refl, units_eq_refl, option_eq_refl, eq_refl, bool_eq_refl)

get_unique-append :
    (k j : List ℕ) (m : Unique) (v p : ValidatedEvidence)
    → get_unique k m ≡ some p
    → get_unique k (m ++ ((j, v) ∷ [])) ≡ some p
unfolding get_unique
get_unique-append k j [] v p h = cc
get_unique-append k j ((i, w) ∷ m) v p h = ground (arith, get_unique-append k j m v p)

get_unique-append_self :
    (k : List ℕ) (m : Unique) (v : ValidatedEvidence)
    → get_unique k m ≡ none
    → get_unique k (m ++ ((k, v) ∷ [])) ≡ some v
unfolding get_unique
get_unique-append_self k [] v h = rw (units_eq_refl k)
get_unique-append_self k ((i, w) ∷ m) v h = ground (arith, get_unique-append_self k m v)

module _ (date_parse : List ℕ → Option Instant) where
  -- The map holds what `e` says.
  record Holds (m : Unique) (e : PerConceptEvidence) : Type 0 where
    value : ValidatedEvidence
    stored : ValidatedEvidence
    valid : validate_evidence date_parse e ≡ ok value
    found : get_unique (evidence_identity e) m ≡ some stored
    same : same_evidence stored value ≡ true

  Merged-Holds :
      (m : Unique) (k : List ℕ) (v : ValidatedEvidence) {m' : Unique} (e : PerConceptEvidence)
      → Merged m k v m'
      → Holds m e
      → Holds m' e
  Merged-Holds m k v e (added _ p) h = record {
    value = h.value;
    stored = h.stored;
    valid = h.valid;
    found = rw (← p) (get_unique-append (evidence_identity e) k m v h.stored h.found);
    same = h.same;
  }
  Merged-Holds m k v e (known _ _ _ p) h = rw p at h

  observe-Holds :
      (m : Unique) (e : PerConceptEvidence) {m' : Unique}
      → observe date_parse m e ≡ ok m'
      → Holds m' e
  observe-Holds m e h = let (v, valid, merged) = observe-ok date_parse m e h in from v valid merged
    where
      from :
          (v : ValidatedEvidence) {m' : Unique}
          → validate_evidence date_parse e ≡ ok v
          → Merged m (evidence_identity e) v m'
          → Holds m' e
      from v valid (added absent p) = record {
        value = v;
        stored = v;
        valid = valid;
        found = rw (← p) (get_unique-append_self (evidence_identity e) m v absent);
        same = same_evidence_refl v;
      }
      from v valid (known p found same q) = record {
        value = v;
        stored = p;
        valid = valid;
        found = rw (← q) found;
        same = same;
      }

  observe_all-keeps :
      (m : Unique) (es : List PerConceptEvidence) {m' : Unique} (e : PerConceptEvidence)
      → observe_all date_parse m es ≡ ok m'
      → Holds m e
      → Holds m' e
  unfolding observe_all
  observe_all-keeps m [] e h k = rw (ok-injective h) at k
  observe_all-keeps m (x ∷ es) e h k =
      let (m₁, seen, rest) = >>=-eq-ok (observe date_parse m x) _ h in
      let (v, valid, merged) = observe-ok date_parse m x seen in
      observe_all-keeps m₁ es e rest (Merged-Holds m (evidence_identity x) v e merged k)

  observe_all-Holds :
      (m : Unique) (es : List PerConceptEvidence) {m' : Unique}
      → observe_all date_parse m es ≡ ok m'
      → All (Holds m') es
  unfolding observe_all
  observe_all-Holds m [] h = tt
  observe_all-Holds m (x ∷ es) h =
      let (m₁, seen, rest) = >>=-eq-ok (observe date_parse m x) _ h in
      (observe_all-keeps m₁ es x rest (observe-Holds m x seen), observe_all-Holds m₁ es rest)

  -- Evidence that the map holds is passed over.
  observe_held : (m : Unique) (e : PerConceptEvidence) → Holds m e → observe date_parse m e ≡ ok m
  unfolding observe merge
  observe_held m e h = rw h.valid (rw (h.found, merge) (rw h.same))

  observe_all_held :
      (m : Unique) (es : List PerConceptEvidence)
      → All (Holds m) es
      → observe_all date_parse m es ≡ ok m
  unfolding observe_all
  observe_all_held m [] h = refl
  observe_all_held m (e ∷ es) h = rw (observe_held m e h.0) (observe_all_held m es h.1)

  observe_all-append :
      (m : Unique) (es fs : List PerConceptEvidence) {m' : Unique}
      → observe_all date_parse m es ≡ ok m'
      → observe_all date_parse m (es ++ fs) ≡ observe_all date_parse m' fs
  unfolding observe_all
  observe_all-append m [] fs h = rw (ok-injective h)
  observe_all-append m (e ∷ es) fs h =
      let (m₁, seen, rest) = >>=-eq-ok (observe date_parse m e) _ h in
      rw seen (observe_all-append m₁ es fs rest)

  -- Evidence that was counted and is delivered again, in any number and order, leaves the
  -- canonical list as it was, and is no error.
  pub canonicalize_evidence-redelivered :
      (es fs : List PerConceptEvidence) {items : List ValidatedEvidence}
      → canonicalize_evidence date_parse es ≡ ok items
      → All (λ f. Memᴰ f es) fs
      → canonicalize_evidence date_parse (es ++ fs) ≡ ok items
  unfolding canonicalize_evidence
  canonicalize_evidence-redelivered es fs h again =
      let (m, seen, sorted) = >>=-eq-ok (observe_all date_parse [] es) _ h in
      rw (observe_all-append [] es fs seen) (
        rw
          (observe_all_held m fs
            (All-map _ _ (λ f here. All-lookup _ es (observe_all-Holds [] es seen) here) fs again))
          sorted)
