-- ===== src/Router/Attempts.antt =====
-- packages/model-router/src/router.ts: the calls of one adapter, and what each ends in. The world
-- that a call meets is a record: what the clock shows, and what the adapter does. The types of
-- inputs and results, the validators of validation.ts and the fields that
-- `attachDeterministicResultFields` adds are parameters.
pub mod Adapters
pub mod Bounds
use reflo_learning.Prelude.{
  ℕ, zero, suc, ◌+◌, ◌-◌, ◌≤◌, ◌<◌, ◌≡◌, min, String, Bool, true, false, not, ◌&&◌, ◌||◌, Option,
  none, some, List, [], ◌∷◌, ◌++◌, Result, ok, err, length, ltb, leb, ◌==◌, ◌===◌, if◌then◌else◌,
}
use reflo_learning.Router.Policy.{ModelTaskId, media_tts, RouteDefinition}
use reflo_learning.Router.Trace.{
  AttemptOutcome, deadline_exceeded, permanent_error, success, transient_error, validation_error,
  ValidationStatus, validation_failed, not_run, passed, ProviderUsage, ModelAttemptTrace,
}
use Adapters.{AdapterDescriptor}

pub data SubmissionState : Type 0 where
  accepted not_accepted unknown : SubmissionState

-- `ModelAdapterError`, its code already a safe one.
pub record AdapterError : Type 0 where
  pub safe_code : String
  pub submission_state : SubmissionState
  pub transient : Bool

pub data RouterErrorCode : Type 0 where
  adapter_unavailable deadline_error feature_disabled : RouterErrorCode
  invalid_adapter_configuration invalid_result provider_failure trace_failure : RouterErrorCode
  unknown_task : RouterErrorCode

pub record RouterError : Type 0 where
  pub code : RouterErrorCode
  pub provider : Option AdapterError

abbrev pub router_error : RouterErrorCode → RouterError
router_error code = record { code = code; provider = none }

-- What can be thrown: `foreign` is any other error.
pub data Thrown : Type 0 where
  router : RouterError → Thrown
  adapter : AdapterError → Thrown
  foreign : Thrown

-- How an operation under a timer ends: the timer fires before it settles, or it settles first.
pub data Race (A : Type 0) : Type 0 where
  resolves : A → Race A
  rejects : Thrown → Race A
  times_out : Race A

-- `withDeadline`, called when the clock shows `now`.
unfoldable pub with_deadline : {A : Type 0} → ℕ → ℕ → Race A → Result Thrown A
with_deadline deadline_at now race =
    if leb deadline_at now then err (router (router_error deadline_error)) else elim race [
      | resolves a ↦ ok a
      | rejects e ↦ err e
      | times_out ↦ err (router (router_error deadline_error))
    ]

pub record AdapterResponse (Value : Type 0) : Type 0 where
  pub effective_model : Option String
  pub provider_request_id : Option String
  pub usage : Option ProviderUsage
  pub value : Value

-- What one attempt meets: the clock when it starts, when `withDeadline` looks and when it is over,
-- and what the adapter does.
pub record Exchange (Value : Type 0) : Type 0 where
  pub started_at : ℕ
  pub called_at : ℕ
  pub finished_at : ℕ
  pub race : Race (AdapterResponse Value)

-- The variables of the loops.
pub record Progress : Type 0 where
  pub attempts : List ModelAttemptTrace
  pub failure : Option RouterError

pub record Call (Value : Type 0) : Type 0 where
  pub task : ModelTaskId
  pub route : RouteDefinition
  pub deadline_at : ℕ
  pub attach : Value → Value
  pub is_valid : Value → Bool
  pub exchanges : ℕ → Exchange Value

-- How the loop over the attempts of one adapter ends.
pub data Outcome (Value : Type 0) : Type 0 where
  stop : Progress → (fallback_eligible : Bool) → Outcome Value
  succeed : Progress → AdapterDescriptor → AdapterResponse Value → (finished_at : ℕ) → Outcome Value
  raise : Thrown → Outcome Value

-- How one attempt ends: the loop goes on, or it is over.
pub data Round (Value : Type 0) : Type 0 where
  retry : Progress → Round Value
  over : Outcome Value → Round Value

abbrev is_not_accepted : SubmissionState → Bool
is_not_accepted not_accepted = true
is_not_accepted _ = false

abbrev has_fallback : RouteDefinition → Bool
has_fallback r = elim r.fallback [ none ↦ false | some f ↦ true ]

unfoldable pub can_use_tts_fallback : ModelTaskId → AdapterError → Bool
can_use_tts_fallback media_tts e =
    e.transient
    && is_not_accepted e.submission_state
    && (e.safe_code === "capacity_unavailable"
        || e.safe_code === "quota_exhausted"
        || e.safe_code === "rate_limited"
        || e.safe_code === "unavailable")
can_use_tts_fallback _ e = false

or_else : {A : Type 0} → Option A → A → A
or_else none a = a
or_else (some b) a = b

abbrev pub fail : Progress → ModelAttemptTrace → RouterError → Progress
fail s t e = record { attempts = s.attempts ++ (t ∷ []); failure = some e }

module _ {Value : Type 0} where
  attempt_trace :
      AdapterDescriptor
      → ℕ
      → Exchange Value
      → AttemptOutcome
      → ValidationStatus
      → AdapterResponse Value
      → ModelAttemptTrace
  unfolding or_else
  attempt_trace d attempt x outcome status response = record {
    adapter_version = d.adapter_version;
    attempt = attempt;
    duration_ms = x.finished_at - x.started_at;
    effective_model = or_else response.effective_model d.effective_model;
    effective_model_version = d.effective_model_version;
    outcome = outcome;
    requested_selector = d.selector;
    retry_reason = none;
    started_at = x.started_at;
    usage = response.usage;
    validation_status = status;
  }

  -- The trace that the `catch` writes.
  failed_trace :
      AdapterDescriptor → ℕ → Exchange Value → AttemptOutcome → String → ModelAttemptTrace
  failed_trace d attempt x outcome reason = record {
    adapter_version = d.adapter_version;
    attempt = attempt;
    duration_ms = x.finished_at - x.started_at;
    effective_model = d.effective_model;
    effective_model_version = d.effective_model_version;
    outcome = outcome;
    requested_selector = d.selector;
    retry_reason = some reason;
    started_at = x.started_at;
    usage = none;
    validation_status = not_run;
  }

module _ {Value : Type 0} (c : Call Value) (is_primary : Bool) (d : AdapterDescriptor) where
  -- The body of the `try`, once the adapter has answered.
  on_response : Progress → ℕ → Exchange Value → AdapterResponse Value → Outcome Value
  unfolding attempt_trace
  on_response s k x response =
      if ltb c.deadline_at x.finished_at
      then stop
          (fail s (attempt_trace d k x deadline_exceeded not_run response)
            (router_error deadline_error))
          false
      else if not (c.is_valid (c.attach response.value))
      then stop
          (fail s (attempt_trace d k x validation_error validation_failed response)
            (router_error invalid_result))
          false
      else succeed
          (record s { attempts = s.attempts ++ (attempt_trace d k x success passed response ∷ []) })
          d (record response { value = c.attach response.value }) x.finished_at

  on_adapter_error : ℕ → Progress → ℕ → Exchange Value → AdapterError → Round Value
  unfolding failed_trace
  on_adapter_error rest s k x e =
      let outcome = if e.transient then transient_error else permanent_error in
      let s' =
        fail s (failed_trace d k x outcome e.safe_code)
          (record { code = provider_failure; provider = some e }) in
      let in_time = ltb x.finished_at c.deadline_at in
      if e.transient && ltb 0 rest && in_time
      then retry s'
      else over
          (stop s' (is_primary && has_fallback c.route && can_use_tts_fallback c.task e && in_time))

  -- The `catch`, for an adapter's call that did not return.
  on_thrown : ℕ → Progress → ℕ → Exchange Value → Thrown → Round Value
  unfolding on_adapter_error
  on_thrown rest s k x foreign = over (raise foreign)
  on_thrown rest s k x (adapter e) = on_adapter_error rest s k x e
  on_thrown rest s k x (router e) = elim e.code [
    | deadline_error ↦ over (stop (fail s (failed_trace d k x deadline_exceeded "timeout") e) false)
    | _ ↦ over (raise (router e))
  ]

  -- One attempt, with `rest` more allowed after it.
  unfoldable pub attempt_once : ℕ → Progress → Round Value
  unfolding on_response on_thrown
  attempt_once rest s =
      let k = length s.attempts + 1 in
      let x = c.exchanges k in
      if leb c.deadline_at x.started_at
      then over (stop (record s { failure = some (router_error deadline_error) }) false)
      else elim (with_deadline c.deadline_at x.called_at x.race) [
        | ok response ↦ over (on_response s k x response)
        | err e ↦ on_thrown rest s k x e
      ]

  -- The loop over the attempts of one adapter.
  unfoldable pub attempt_loop : ℕ → Progress → Outcome Value
  attempt_loop zero s = stop s false
  attempt_loop (suc rest) s = elim (attempt_once rest s) [
    | retry s' ↦ attempt_loop rest s'
    | over outcome ↦ outcome
  ]
