-- ===== src/Flags/Registry.antt =====
-- packages/feature-flags/src/registry.ts: the flags of the first release after launch, and the
-- policies that each must satisfy.
use reflo_learning.Prelude.{
  ℕ, ◌≡◌, String, Bool, false, Option, none, some, List, [], ◌∷◌, refl, if◌then◌else◌, units,
  units_eq, eq_of_units_eq, arith,
}

abbrev pub p1_flag_registry_version : String
p1_flag_registry_version = "p1-flags-v1"

pub data P1FlagKey : Type 0 where
  media_video tutor_voice auth_oauth delivery_whatsapp billing_stripe : P1FlagKey
  export_self_service : P1FlagKey

abbrev pub key_text : P1FlagKey → String
key_text media_video = "p1.media.video"
key_text tutor_voice = "p1.tutor.voice"
key_text auth_oauth = "p1.auth.oauth"
key_text delivery_whatsapp = "p1.delivery.whatsapp"
key_text billing_stripe = "p1.billing.stripe"
key_text export_self_service = "p1.export.self_service"

abbrev pub p1_flag_keys : List P1FlagKey
p1_flag_keys =
    media_video ∷ tutor_voice ∷ auth_oauth ∷ delivery_whatsapp ∷ billing_stripe
    ∷ export_self_service ∷ []

pub data VideoOperationKind : Type 0 where
  chapter_explainer full_course : VideoOperationKind

pub record PrerequisitePolicyDefinition : Type 0 where
  pub id : String
  pub requirements : List String
  pub version : String

pub data ResourceAdmissionPolicy : Type 0 where
  isolated_mode : (id version : String) → ResourceAdmissionPolicy
  shared_mode :
      (id : String) (max_p1_concurrent p0_reserved_concurrent : ℕ) (version : String)
      → ResourceAdmissionPolicy

pub record P1FlagDefinition : Type 0 where
  pub capability : String
  pub default : Bool
  pub key : P1FlagKey
  pub prerequisite_policy : PrerequisitePolicyDefinition
  pub registry_version : String
  pub resource_admission_policy : ResourceAdmissionPolicy
  pub video_operation_policies : VideoOperationKind → Option PrerequisitePolicyDefinition

abbrev prerequisite : String → String → List String → PrerequisitePolicyDefinition
prerequisite id version requirements = record {
  id = id;
  requirements = requirements;
  version = version;
}

abbrev isolated : String → ResourceAdmissionPolicy
isolated id = isolated_mode id "1"

abbrev shared : String → ℕ → ℕ → ResourceAdmissionPolicy
shared id max_p1 p0_reserved = shared_mode id max_p1 p0_reserved "1"

abbrev video_policies : VideoOperationKind → Option PrerequisitePolicyDefinition
video_policies chapter_explainer = some (
    prerequisite "p1-media-video-chapter-explainer-prerequisites" "1"
      ("chapter-explainer-policy-current" ∷ []))
video_policies full_course = some (
    prerequisite "p1-media-video-full-course-prerequisites" "1"
      ("week-2-p0-exit-current" ∷ "full-course-video-policy-current" ∷ []))

abbrev definition :
    String
    → P1FlagKey
    → PrerequisitePolicyDefinition
    → ResourceAdmissionPolicy
    → (VideoOperationKind → Option PrerequisitePolicyDefinition)
    → P1FlagDefinition
definition capability key policy admission video = record {
  capability = capability;
  default = false;
  key = key;
  prerequisite_policy = policy;
  registry_version = p1_flag_registry_version;
  resource_admission_policy = admission;
  video_operation_policies = video;
}

unfoldable pub p1_flag_registry : P1FlagKey → P1FlagDefinition
p1_flag_registry auth_oauth =
    definition "accounts.oauth" auth_oauth
      (prerequisite "p1-auth-oauth-prerequisites" "1" (
        "week-2-p0-exit-current" ∷ "provider-security-and-privacy-eligibility-current"
        ∷ "owner-scope-authorization-current" ∷ []))
      (isolated "p1-auth-oauth-isolated-v1") (λ _. none)
p1_flag_registry billing_stripe =
    definition "billing.stripe" billing_stripe
      (prerequisite "p1-billing-stripe-prerequisites" "1" (
        "human-pricing-verdict-current" ∷ "human-spending-approval-current"
        ∷ "provider-security-and-privacy-eligibility-current" ∷ []))
      (isolated "p1-billing-stripe-isolated-v1") (λ _. none)
p1_flag_registry delivery_whatsapp =
    definition "delivery.whatsapp" delivery_whatsapp
      (prerequisite "p1-delivery-whatsapp-prerequisites" "1" (
        "business-approval-current" ∷ "provider-retention-training-and-deletion-settings-verified"
        ∷ "learner-opt-in-and-consent-current" ∷ "telegram-p0-capacity-preserved" ∷ []))
      (shared "p1-delivery-whatsapp-admission-v1" 2 4) (λ _. none)
p1_flag_registry export_self_service =
    definition "accounts.export.self-service" export_self_service
      (prerequisite "p1-export-self-service-prerequisites" "1" (
        "authenticated-export-authorization-current" ∷ "privacy-and-deletion-policy-current"
        ∷ "p0-capacity-preserved" ∷ []))
      (shared "p1-export-self-service-admission-v1" 1 2) (λ _. none)
p1_flag_registry media_video =
    definition "media.video" media_video
      (prerequisite "p1-media-video-prerequisites" "1" (
        "wanx-provider-eligibility-current" ∷ "privacy-security-and-quality-gates-current"
        ∷ "p0-audio-and-text-capacity-preserved" ∷ []))
      (shared "p1-media-video-admission-v1" 1 4) video_policies
p1_flag_registry tutor_voice =
    definition "tutor.voice" tutor_voice
      (prerequisite "p1-tutor-voice-prerequisites" "1" (
        "week-2-p0-exit-current" ∷ "both-tts-paths-current"
        ∷ "privacy-security-and-quality-gates-current" ∷ "p0-audio-capacity-preserved" ∷ []))
      (shared "p1-tutor-voice-admission-v1" 2 4) (λ _. none)

-- `isP1FlagKey`, with the key that it narrows to.
find_key : List ℕ → List P1FlagKey → Option P1FlagKey
find_key value [] = none
find_key value (k ∷ ks) = if units_eq (units (key_text k)) value then some k else find_key value ks

unfoldable pub as_p1_flag_key : List ℕ → Option P1FlagKey
unfolding find_key
as_p1_flag_key value = find_key value p1_flag_keys

unfoldable pub P1FlagKey-discrete : Discrete P1FlagKey
P1FlagKey-discrete = hlevel

find_key_sound :
    (value : List ℕ) (ks : List P1FlagKey) {k : P1FlagKey}
    → find_key value ks ≡ some k
    → units (key_text k) ≡ value
unfolding find_key
find_key_sound value [] h = cc
find_key_sound value (x ∷ ks) {k} h =
    ground (arith, eq_of_units_eq (units (key_text x)) value, find_key_sound value ks {k = k})

pub as_p1_flag_key_sound :
    (value : List ℕ) {k : P1FlagKey} → as_p1_flag_key value ≡ some k → units (key_text k) ≡ value
unfolding as_p1_flag_key
as_p1_flag_key_sound value h = find_key_sound value p1_flag_keys h

pub as_p1_flag_key-key_text : (k : P1FlagKey) → as_p1_flag_key (units (key_text k)) ≡ some k
unfolding as_p1_flag_key units units_eq
as_p1_flag_key-key_text media_video = refl
as_p1_flag_key-key_text _ = refl
