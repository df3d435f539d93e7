-- ===== src/Knowledge/Evidence/Merge.antt =====
-- The two ways in which a candidate enters the `Map` of `canonicalizeEvidence`.
use reflo_learning.Prelude.{
  ℕ, ◌≡◌, inl, inr, true, Option, none, some, List, [], ◌∷◌, ◌++◌, ok, >>=-eq-ok, arith,
  Option-cases,
}
use reflo_learning.Knowledge.Contracts.{PerConceptEvidence, Instant}
use reflo_learning.Knowledge.Evidence.{
  ValidatedEvidence, Unique, get_unique, merge, same_evidence, evidence_identity, validate_evidence,
  observe,
}

-- A new identity is added at the end; a known one leaves the map as it is.
pub data Merged (m : Unique) (k : List ℕ) (v : ValidatedEvidence) (m' : Unique) : Type 0 where
  added : get_unique k m ≡ none → m ++ ((k, v) ∷ []) ≡ m' → Merged m k v m'
  known :
      (p : ValidatedEvidence)
      → get_unique k m ≡ some p
      → same_evidence p v ≡ true
      → m ≡ m'
      → Merged m k v m'

pub merge-Merged :
    (m : Unique) (k : List ℕ) (v : ValidatedEvidence) {m' : Unique}
    → merge m k v ≡ ok m'
    → Merged m k v m'
unfolding merge
merge-Merged m k v h = elim (Option-cases (get_unique k m)) [
  | inl absent ↦ added absent (ground arith)
  | inr (p, found) ↦ known p found (ground arith) (ground arith)
]

-- A round of the loop that goes on has validated its evidence and merged it.
pub observe-ok :
    (date_parse : List ℕ → Option Instant) (m : Unique) (e : PerConceptEvidence) {m' : Unique}
    → observe date_parse m e ≡ ok m'
    → (v : ValidatedEvidence) × (validate_evidence date_parse e ≡ ok v)
      × Merged m (evidence_identity e) v m'
unfolding observe
observe-ok date_parse m e h =
    let (v, valid, merged) = >>=-eq-ok (validate_evidence date_parse e) _ h in
    (v, valid, merge-Merged m (evidence_identity e) v merged)
