-- ===== src/Router/Trace.antt =====
-- packages/model-router/src/trace.ts: the trace of a logical call, and the check that it is safe to
-- record. Times are whole milliseconds, kept as numbers where the source keeps ISO texts.
use reflo_learning.Prelude.{
  ℕ, String, Bool, true, false, ◌&&◌, ◌||◌, Option, none, some, List, [], ◌∷◌, length, all, leb,
  ◌==◌, units, is_digit, is_digest,
}
use reflo_learning.Router.Policy.{ModelTaskId}

pub data AttemptOutcome : Type 0 where
  deadline_exceeded permanent_error success transient_error validation_error : AttemptOutcome

pub data ValidationStatus : Type 0 where
  validation_failed not_run passed : ValidationStatus

pub record ProviderUsage : Type 0 where
  pub input_units : Option ℕ
  pub output_units : Option ℕ

pub record ModelAttemptTrace : Type 0 where
  pub adapter_version : String
  pub attempt : ℕ
  pub duration_ms : ℕ
  pub effective_model : String
  pub effective_model_version : String
  pub outcome : AttemptOutcome
  pub requested_selector : String
  pub retry_reason : Option String
  pub started_at : ℕ
  pub usage : Option ProviderUsage
  pub validation_status : ValidationStatus

pub data LogicalOutcome : Type 0 where
  call_failure call_success : LogicalOutcome

pub record PromptBundle : Type 0 where
  pub digest : String
  pub definition_digest : String
  pub generation_parameters_version : String
  pub id : String
  pub version : String

pub record ModelLogicalCallTrace : Type 0 where
  pub attempts : List ModelAttemptTrace
  pub call_id : String
  pub duration_ms : ℕ
  pub finished_at : ℕ
  pub outcome : LogicalOutcome
  pub prompt : Option PromptBundle
  pub route_policy_version : String
  pub started_at : ℕ
  pub task : ModelTaskId

is_upper : ℕ → Bool
is_upper c = leb b'A' c && leb c b'Z'

is_lower : ℕ → Bool
is_lower c = leb b'a' c && leb c b'z'

is_alphanumeric : ℕ → Bool
unfolding is_upper is_lower
is_alphanumeric c = is_upper c || is_lower c || is_digit c

is_token_char : ℕ → Bool
unfolding is_alphanumeric
is_token_char c = is_alphanumeric c || c == b'.' || c == b'_' || c == b':' || c == b'/' || c == b'-'

is_token : List ℕ → Bool
unfolding is_token_char
is_token [] = false
is_token (c ∷ cs) = is_alphanumeric c && all is_token_char cs && leb (length cs) 127

-- `/^[A-Za-z0-9][A-Za-z0-9._:/-]{0,127}$/`
unfoldable pub safe_token : String → Bool
unfolding is_token
safe_token value = is_token (units value)

abbrev pub safe_optional_token : Option String → Bool
safe_optional_token none = true
safe_optional_token (some value) = safe_token value

abbrev pub safe_optional_count : Option ℕ → Bool
safe_optional_count none = true
safe_optional_count (some n) = leb n 1_000_000_000

safe_prompt : Option PromptBundle → Bool
safe_prompt none = true
safe_prompt (some p) = safe_token p.id && safe_token p.version && is_digest p.digest

safe_usage : Option ProviderUsage → Bool
safe_usage none = true
safe_usage (some u) = safe_optional_count u.input_units && safe_optional_count u.output_units

unfoldable pub safe_attempt : ModelAttemptTrace → Bool
unfolding safe_usage
safe_attempt a =
    leb 1 a.attempt
    && leb a.attempt 4
    && leb a.duration_ms 86_400_000
    && safe_token a.adapter_version
    && safe_token a.effective_model
    && safe_token a.effective_model_version
    && safe_token a.requested_selector
    && safe_optional_token a.retry_reason
    && safe_usage a.usage

-- `assertSafeTraceEnvelope`, as a test. The sets of keys and the enumerations are the types'.
unfoldable pub is_safe_trace : ModelLogicalCallTrace → Bool
unfolding safe_prompt safe_attempt
is_safe_trace t =
    safe_token t.call_id
    && leb t.duration_ms 86_400_000
    && safe_token t.route_policy_version
    && safe_prompt t.prompt
    && leb (length t.attempts) 4
    && all safe_attempt t.attempts
