-- ===== src/Delivery/Answers/Guarded.antt =====
-- packages/delivery/src/service.ts: whose deliveries an e-mail link opens.
use mathlib.Core.List.{append-nil, append_assoc}
use reflo_learning.Prelude.{
  ℕ, ◌≡◌, refl, sym, ◌∙◌, ap, inl, inr, String, some, List, [], ◌∷◌, ◌++◌, map, Result, ok, err,
  Result-cases, arith,
}
use reflo_learning.Prelude.Traced.{◌>>◌, pure}
use reflo_learning.Delivery.Contracts.{
  KnowledgeAuthorizationContext, DemoDeliveryDestination, DeliveryAnswerInput,
}
use reflo_learning.Delivery.Rules.{EmailTokenClaims, Runtime, Config}
use reflo_learning.Delivery.Dispatch.{Thrown}
use reflo_learning.Delivery.Answers.{
  AnswerHost, AnswerCall, finalizing, recording, FinalizeRequest, AnswerResult,
  DeliveryAnswerFinalization, admit, finalize_request, record_knowledge, submit_admitted,
  submit_email,
}
use reflo_learning.Delivery.Answers.Genuine.{IsGenuine, IsMailboxOf, admit-IsGenuine}

-- The evidence of the answers is recorded in their order, up to the first that fails.
pub data IsRecorded (host : AnswerHost) (calls : List AnswerCall)
    (fs : List DeliveryAnswerFinalization) (r : Result Thrown (Unit {0})) (later : List AnswerCall)
    : Type 0 where
  complete : r ≡ ok tt → later ≡ calls ++ map recording fs → IsRecorded host calls fs r later
  stopped :
      (done : List DeliveryAnswerFinalization) (f : DeliveryAnswerFinalization)
      (rest : List DeliveryAnswerFinalization) (e : Thrown)
      → fs ≡ done ++ (f ∷ rest)
      → host.record_evidence f ≡ err e
      → r ≡ err e
      → later ≡ calls ++ map recording (done ++ (f ∷ []))
      → IsRecorded host calls fs r later

add_recorded :
    {host : AnswerHost} (f : DeliveryAnswerFinalization) (calls : List AnswerCall)
    {fs : List DeliveryAnswerFinalization} {r : Result Thrown (Unit {0})} {later : List AnswerCall}
    → IsRecorded host (calls ++ (recording f ∷ [])) fs r later
    → IsRecorded host calls (f ∷ fs) r later
add_recorded f calls {fs = fs} (complete fine q) =
    complete fine (q ∙ append_assoc calls (recording f ∷ []) (map recording fs))
add_recorded f calls (stopped done g rest e split_at broken failed q) =
    stopped (f ∷ done) g rest e (ap (λ x. f ∷ x) split_at) broken failed
      (q ∙ append_assoc calls (recording f ∷ []) (map recording (done ++ (g ∷ []))))

module _ (rt : Runtime) (config : Config) (host : AnswerHost)
    (a : KnowledgeAuthorizationContext) where
  record_knowledge-IsRecorded :
      (fs : List DeliveryAnswerFinalization) (calls : List AnswerCall)
      → IsRecorded host calls fs
          (record_knowledge rt config host a fs calls).0
          (record_knowledge rt config host a fs calls).1
  unfolding record_knowledge
  record_knowledge-IsRecorded [] calls = complete refl (sym (append-nil calls))
  record_knowledge-IsRecorded (f ∷ fs) calls = elim (Result-cases (host.record_evidence f)) [
    | inr (e, broken) ↦ rw broken (stopped [] f fs e refl broken refl refl)
    | inl (u, kept) ↦
        rw kept
          (add_recorded f calls (record_knowledge-IsRecorded fs (calls ++ (recording f ∷ []))))
  ]

-- What follows the request to finalize the answers.
pub data IsAnswered (host : AnswerHost) (request : FinalizeRequest)
    (r : Result Thrown (List AnswerResult)) (calls : List AnswerCall) : Type 0 where
  rejected :
      (e : Thrown)
      → host.finalize request ≡ err e
      → r ≡ err e
      → calls ≡ finalizing request ∷ []
      → IsAnswered host request r calls
  recorded :
      (fs : List DeliveryAnswerFinalization)
      → host.finalize request ≡ ok fs
      → r ≡ ok (map (λ (f : DeliveryAnswerFinalization). f.result) fs)
      → calls ≡ finalizing request ∷ map recording fs
      → IsAnswered host request r calls
  interrupted :
      (done : List DeliveryAnswerFinalization) (f : DeliveryAnswerFinalization)
      (rest : List DeliveryAnswerFinalization) (e : Thrown)
      → host.finalize request ≡ ok (done ++ (f ∷ rest))
      → host.record_evidence f ≡ err e
      → r ≡ err e
      → calls ≡ finalizing request ∷ map recording (done ++ (f ∷ []))
      → IsAnswered host request r calls

-- The calls of a submission, and its answer.
pub data IsSubmitted (rt : Runtime) (config : Config) (host : AnswerHost)
    (a : KnowledgeAuthorizationContext) (token : List ℕ) (answers : List DeliveryAnswerInput)
    (now : String) (r : Result Thrown (List AnswerResult)) (calls : List AnswerCall) : Type 0 where
  refused :
      (e : Thrown) → r ≡ err e → calls ≡ [] → IsSubmitted rt config host a token answers now r calls
  admitted :
      (claims : EmailTokenClaims) (request : FinalizeRequest)
      → IsGenuine rt config token now a claims
      → IsMailboxOf config a request.destination
      → request.delivery_id ≡ claims.delivery_id
      → request.provider_submission_id ≡ claims.token_id
      → request.token_digest ≡ some (rt.digest token)
      → request.answers ≡ answers
      → request.submitted_at ≡ now
      → IsAnswered host request r calls
      → IsSubmitted rt config host a token answers now r calls

module _ (rt : Runtime) (config : Config) (host : AnswerHost) (a : KnowledgeAuthorizationContext)
    (token : List ℕ) (answers : List DeliveryAnswerInput) (now : String) where
  abbrev Submitted : Result Thrown (List AnswerResult) × List AnswerCall → Type 0
  Submitted (r, calls) = IsSubmitted rt config host a token answers now r calls

  module _ (claims : EmailTokenClaims) (destination : DemoDeliveryDestination) where
    abbrev request : FinalizeRequest
    request = finalize_request rt config host a token answers now claims destination

    answer_after :
        (fs : List DeliveryAnswerFinalization) (r : Result Thrown (Unit {0}))
        (later : List AnswerCall)
        → host.finalize request ≡ ok fs
        → IsRecorded host (finalizing request ∷ []) fs r later
        → let after =
            ((λ (calls : List AnswerCall). (r, later))
                >> pure (map (λ (f : DeliveryAnswerFinalization). f.result) fs))
              [] in
          IsAnswered host request after.0 after.1
    answer_after fs (ok u) later q (complete fine e) = recorded fs q refl e
    answer_after fs (ok u) later q (stopped done f rest e split_at broken failed c) = absurd (cc)
    answer_after fs (err e') later q (complete fine e) = absurd (cc)
    answer_after fs (err e') later q (stopped done f rest e split_at broken failed c) =
        interrupted done f rest e (q ∙ ap ok split_at) broken (ground arith) c

    submit_admitted-IsAnswered :
        (finalized : Result Thrown (List DeliveryAnswerFinalization))
        → host.finalize request ≡ finalized
        → IsAnswered host request
            (submit_admitted rt config host a token answers now (ok (claims, destination)) []).0
            (submit_admitted rt config host a token answers now (ok (claims, destination)) []).1
    unfolding submit_admitted
    submit_admitted-IsAnswered (err e) q = rw q (rejected e q refl refl)
    submit_admitted-IsAnswered (ok fs) q = rw q (
        answer_after fs _ _ q
          (record_knowledge-IsRecorded rt config host a fs (finalizing request ∷ [])))

  admitted_Submitted :
      (x : Result Thrown (EmailTokenClaims × DemoDeliveryDestination))
      → admit rt config host a token now ≡ x
      → Submitted (submit_admitted rt config host a token answers now x [])
  unfolding submit_admitted
  admitted_Submitted (err e) q = refused e refl refl
  admitted_Submitted (ok (claims, destination)) q =
      let (genuine, there) = admit-IsGenuine rt config a token now claims destination host q in
      admitted claims (request claims destination) genuine there refl refl refl refl refl (
        submit_admitted-IsAnswered claims destination (host.finalize (request claims destination))
          refl)

  -- A submission by an e-mail link that reaches the repository shows a token whose signature is the key's
  -- for its payload, whose payload is of this version and names the one who shows it, and that is not
  -- expired. It asks to finalize the delivery that the token names, for a destination of that one for
  -- mail, under the token's id and with the token's digest, with the answers and the time that were
  -- given; any other submission is refused before a call. The evidence of the finalized answers is recorded in
  -- order; the answer has all their results, or the first error, after which nothing is recorded.
  pub submit_email-IsSubmitted :
      IsSubmitted rt config host a token answers now
        (submit_email rt config host a token answers now []).0
        (submit_email rt config host a token answers now []).1
  unfolding submit_email
  submit_email-IsSubmitted = admitted_Submitted (admit rt config host a token now) refl
