-- ===== src/Retrieval/Partition/Input/Unique.antt =====
-- packages/retrieval/src/curriculum.ts: the ids of spans that `validatePartitionInput` accepts differ.
use reflo_learning.Prelude.{
  ℕ, ◌+◌, ◌≡◌, ◌≢◌, sym, String, false, List, [], ◌∷◌, ◌++◌, ok, throw_if, throw_if-ok, bind_ok,
  any, All, All-append-left, All-map, ◌===◌, ===_iff, arith,
}
use reflo_learning.Retrieval.Contracts.{
  AuthorizedSourceAccess, authorization_denied, SourceSpanRecord,
}
use reflo_learning.Retrieval.Partition.{is_foreign, is_inconsistent, check_span, check_spans}

abbrev pub AreUnique : List SourceSpanRecord → Type 0
AreUnique [] = Unit
AreUnique (s ∷ ss) = All (λ t. t.id ≢ s.id) ss × AreUnique ss

-- The ids of checked spans differ from each other and from those seen before.
unseen_lem :
    (seen : List SourceSpanRecord) (id : String)
    → any (λ (t : SourceSpanRecord). t.id === id) seen ≡ false
    → All (λ t. t.id ≢ id) seen
unseen_lem [] id h = tt
unseen_lem (t ∷ ts) id h = ((λ e. ground (arith, ===_iff t.id id)), unseen_lem ts id (ground arith))

new_id :
    (seen : List SourceSpanRecord) (n : ℕ) (s : SourceSpanRecord)
    → is_inconsistent seen n s ≡ false
    → any (λ (t : SourceSpanRecord). t.id === s.id) seen ≡ false
unfolding is_inconsistent
new_id seen n s h = ground arith

pub check_spans-AreUnique :
    (access : AuthorizedSourceAccess) (seen : List SourceSpanRecord) (n : ℕ)
    (spans : List SourceSpanRecord) {u : Unit {0}}
    → check_spans access seen n spans ≡ ok u
    → All (λ s. All (λ t. t.id ≢ s.id) seen) spans × AreUnique spans
unfolding check_spans check_span
check_spans-AreUnique access seen n [] h = (tt, tt)
check_spans-AreUnique access seen n (s ∷ spans) h =
    bind_ok (check_span access seen n s) _ h λ v one rest.
      bind_ok (throw_if (is_foreign access s) authorization_denied) _ one λ w own consistent.
        let (apart, unique) = check_spans-AreUnique access (s ∷ seen) (n + 1) spans rest in
        (
          (
            unseen_lem seen s.id (new_id seen n s (throw_if-ok _ _ consistent)),
            All-map _ _ (λ t k. k.1) spans apart,
          ),
          (All-map _ _ (λ t k e. k.0 (sym e)) spans apart, unique),
        )

pub AreUnique-left : (xs ys : List SourceSpanRecord) → AreUnique (xs ++ ys) → AreUnique xs
AreUnique-left [] ys u = tt
AreUnique-left (x ∷ xs) ys u = (All-append-left _ xs ys u.0, AreUnique-left xs ys u.1)

pub AreUnique-right : (xs ys : List SourceSpanRecord) → AreUnique (xs ++ ys) → AreUnique ys
AreUnique-right [] ys u = u
AreUnique-right (x ∷ xs) ys u = AreUnique-right xs ys u.1
