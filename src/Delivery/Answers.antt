-- ===== src/Delivery/Answers.antt =====
-- packages/delivery/src/service.ts: `previewEmail`, `submitEmail`, `getPreference` and `updatePreference`.
-- An answer's evidence is of the knowledge model's: here a text.
pub mod Genuine
pub mod Guarded
use reflo_learning.Prelude.{
  String, Bool, true, false, not, Option, none, some, List, [], ◌∷◌, ◌++◌, map, Result, ok, err, ℕ,
  throw_if, ◌===◌,
}
use reflo_learning.Prelude.Traced.{Traced, calling, raise, pure, lift_by, ◌>>=◌, ◌>>◌}
use reflo_learning.Delivery.Contracts.{
  authorization_denied, not_found, email, KnowledgeAuthorizationContext, DeliveryPreferenceSettings,
  DeliveryPreferenceView, DemoDeliveryDestination, DeliveryAnswerInput, EmailQuizPreview,
  DispatchStatus,
}
use reflo_learning.Delivery.Rules.{
  Throws, EmailTokenClaims, Runtime, Config, validate_preference, destination_for,
  available_providers, preference_of,
}
use reflo_learning.Delivery.Tokens.{verify_email_token, assert_claim_authorization}
use reflo_learning.Delivery.Dispatch.{Thrown, delivery_error}

pub record FinalizeRequest : Type 0 where
  pub answers : List DeliveryAnswerInput
  pub delivery_id : String
  pub destination : DemoDeliveryDestination
  pub provider_submission_id : String
  pub submitted_at : String
  pub token_digest : Option String

pub record AnswerResult : Type 0 where
  pub attempt_id : String
  pub correct : Bool
  pub current_streak : ℕ
  pub longest_streak : ℕ
  pub status : DispatchStatus

pub record DeliveryAnswerFinalization : Type 0 where
  pub delivery_preference : String
  pub evidence : String
  pub result : AnswerResult

pub record PreviewRequest : Type 0 where
  pub delivery_id : String
  pub now : String
  pub token_digest : String

pub record AnswerHost : Type 0 where
  pub preference : Result Thrown (Option DeliveryPreferenceSettings)
  pub save : DeliveryPreferenceSettings → Result Thrown DeliveryPreferenceSettings
  pub load_preview : PreviewRequest → Result Thrown (Option EmailQuizPreview)
  pub finalize : FinalizeRequest → Result Thrown (List DeliveryAnswerFinalization)
  pub record_evidence : DeliveryAnswerFinalization → Result Thrown (Unit {0})

pub data AnswerCall : Type 0 where
  previewing : PreviewRequest → AnswerCall
  finalizing : FinalizeRequest → AnswerCall
  recording : DeliveryAnswerFinalization → AnswerCall

abbrev pub Action : Type 0 → Type 0
Action = Traced AnswerCall Thrown

abbrev pub lift : {A : Type 0} → Throws A → Action A
lift = lift_by delivery_error

module _ (rt : Runtime) (config : Config) (host : AnswerHost)
    (a : KnowledgeAuthorizationContext) where
  unfoldable pub get_preference : Result Thrown DeliveryPreferenceView
  get_preference = elim host.preference [
    | err e ↦ err e
    | ok persisted ↦ elim (preference_of rt config a persisted) [
      | err code ↦ err (delivery_error code)
      | ok p ↦ ok (record { preference = p; available_providers = available_providers config a })
    ]
  ]

  unfoldable pub update_preference :
      DeliveryPreferenceSettings → Result Thrown DeliveryPreferenceView
  update_preference p = elim (validate_preference rt p) [
    | err code ↦ err (delivery_error code)
    | ok _ ↦ elim (destination_for config a p.provider) [
      | err code ↦ err (delivery_error code)
      | ok _ ↦ elim (host.save p) [
        | err e ↦ err e
        | ok saved ↦
            ok (record { preference = saved; available_providers = available_providers config a })
      ]
    ]
  ]

  -- The claims of a token, and the destination of who shows it.
  unfoldable pub admit :
      (token : List ℕ) → (now : String) → Result Thrown (EmailTokenClaims × DemoDeliveryDestination)
  admit token now = elim (verify_email_token rt config token now) [
    | err code ↦ err (delivery_error code)
    | ok claims ↦ elim (assert_claim_authorization claims a) [
      | err code ↦ err (delivery_error code)
      | ok _ ↦ elim (destination_for config a email) [
        | err code ↦ err (delivery_error code)
        | ok destination ↦ ok (claims, destination)
      ]
    ]
  ]

  abbrev pub or_not_found : Option EmailQuizPreview → Action EmailQuizPreview
  or_not_found none = raise (delivery_error not_found)
  or_not_found (some preview) = pure preview

  abbrev pub preview_request : List ℕ → String → EmailTokenClaims → PreviewRequest
  preview_request token now claims = record {
    delivery_id = claims.delivery_id;
    now = now;
    token_digest = rt.digest token;
  }

  -- `previewEmail` from the claims on.
  unfoldable pub preview_admitted :
      (token : List ℕ)
      → (now : String) → Result Thrown (EmailTokenClaims × DemoDeliveryDestination)
      → Action EmailQuizPreview
  preview_admitted token now (err e) = raise e
  preview_admitted token now (ok (claims, destination)) = do
    lift (
        throw_if (not (destination.channel_identity_id === claims.channel_identity_id))
          authorization_denied)
    preview ←
        calling (previewing (preview_request token now claims))
          (host.load_preview (preview_request token now claims))
    or_not_found preview

  unfoldable pub preview_email : (token : List ℕ) → (now : String) → Action EmailQuizPreview
  preview_email token now = preview_admitted token now (admit token now)

  -- `#recordKnowledge`
  unfoldable pub record_knowledge : List DeliveryAnswerFinalization → Action (Unit {0})
  record_knowledge [] = pure tt
  record_knowledge (f ∷ fs) = calling (recording f) (host.record_evidence f) >> record_knowledge fs

  abbrev pub finalize_request :
      List ℕ
      → List DeliveryAnswerInput
      → String
      → EmailTokenClaims
      → DemoDeliveryDestination
      → FinalizeRequest
  finalize_request token answers now claims destination = record {
    answers = answers;
    delivery_id = claims.delivery_id;
    destination = destination;
    provider_submission_id = claims.token_id;
    submitted_at = now;
    token_digest = some (rt.digest token);
  }

  -- `submitEmail` from the claims on.
  unfoldable pub submit_admitted :
      (token : List ℕ)
      → List DeliveryAnswerInput
      → (now : String) → Result Thrown (EmailTokenClaims × DemoDeliveryDestination)
      → Action (List AnswerResult)
  submit_admitted token answers now (err e) = raise e
  submit_admitted token answers now (ok (claims, destination)) = do
    let request = finalize_request token answers now claims destination
    finalizations ← calling (finalizing request) (host.finalize request)
    record_knowledge finalizations
    pure (map (λ (f : DeliveryAnswerFinalization). f.result) finalizations)

  unfoldable pub submit_email :
      (token : List ℕ) → List DeliveryAnswerInput → (now : String) → Action (List AnswerResult)
  submit_email token answers now = submit_admitted token answers now (admit token now)
