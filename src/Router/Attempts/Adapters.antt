-- ===== src/Router/Attempts/Adapters.antt =====
-- packages/model-router/src/router.ts: `verifyAdapter`, over the descriptor of ports.ts.
use reflo_learning.Prelude.{
  String, Bool, true, false, not, ◌&&◌, ◌||◌, Option, none, some, Number, natural, other, leb, ◌==◌,
  ◌===◌, is_empty,
}
use mathlib.Core.Bool.{decide}
use reflo_learning.Router.Policy.{
  ModelCapability, ModelCapability-discrete, embedding, speech, video,
}

pub record AdapterDescriptor : Type 0 where
  pub adapter_version : String
  pub capability : ModelCapability
  pub development_only : Bool
  pub drift_canary_passed : Bool
  pub embedding_profile_version : Option String
  pub effective_model : String
  pub effective_model_version : String
  pub max_immediate_attempts : Number
  pub media_submission_idempotent : Bool
  pub mutable_alias : Bool
  pub selector : String

pub data Deployment : Type 0 where
  dev pilot staging : Deployment

abbrev is_dev : Option Deployment → Bool
is_dev (some dev) = true
is_dev _ = false

-- `attemptsValid`, with the number.
unfoldable pub valid_attempts : Number → Bool
valid_attempts other = false
valid_attempts (natural n) = leb 1 n && leb n 2

abbrev is_one : Number → Bool
is_one other = false
is_one (natural n) = n == 1

is_media : ModelCapability → Bool
is_media speech = true
is_media video = true
is_media _ = false

-- An embedding profile is wanted of an embedding adapter, and of no other.
profile_fits : ModelCapability → Option String → Bool
profile_fits embedding none = false
profile_fits embedding (some p) = true
profile_fits _ none = true
profile_fits _ (some p) = false

-- `verifyAdapter` throws where this is false.
unfoldable pub is_eligible : AdapterDescriptor → ModelCapability → String → Option Deployment → Bool
unfolding is_media profile_fits
is_eligible d capability selector deployment =
    valid_attempts d.max_immediate_attempts
    && decide (ModelCapability-discrete d.capability capability)
    && d.selector === selector
    && not (d.development_only && not (is_dev deployment))
    && not (is_empty d.adapter_version)
    && not (is_empty d.effective_model)
    && not (is_empty d.effective_model_version)
    && (not (is_media capability)
        || is_one d.max_immediate_attempts
        || d.media_submission_idempotent)
    && not (d.mutable_alias && not d.drift_canary_passed && not d.development_only)
    && profile_fits capability d.embedding_profile_version
