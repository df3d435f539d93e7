-- ===== src/Router/Execute.antt =====
-- packages/model-router/src/router.ts: `execute`. `buildPromptBundle` of prompts.ts is part of the
-- request; the registry, the feature flags and the trace sink are the host's.
pub mod Outcomes
pub mod Records
use reflo_learning.Prelude.{
  ℕ, zero, suc, ◌+◌, ◌-◌, ◌≤◌, ◌≡◌, min, Number, natural, other, String, Bool, true, false, not,
  ◌&&◌, ◌||◌, Option, none, some, List, [], ◌∷◌, Result, ok, err, ◌>>=◌, ◌>>◌, throw_if, guard, leb,
  ◌==◌, ◌===◌, if◌then◌else◌,
}
use reflo_learning.Router.Policy.{
  ModelTaskId, ModelCapability, RouteDefinition, route_policy_v6, as_model_task_id,
}
use reflo_learning.Router.Trace.{
  ModelAttemptTrace, ModelLogicalCallTrace, LogicalOutcome, call_failure, call_success,
  PromptBundle, is_safe_trace,
}
use reflo_learning.Router.Attempts.{
  Race, RouterError, RouterErrorCode, router_error, adapter_unavailable, deadline_error,
  feature_disabled, invalid_adapter_configuration, provider_failure, trace_failure, unknown_task,
  Thrown, router, foreign, with_deadline, AdapterResponse, Exchange, Progress, Call, Outcome, stop,
  succeed, raise, attempt_loop,
}
use reflo_learning.Router.Attempts.Adapters.{AdapterDescriptor, Deployment, is_eligible}

-- A timed look at a collaborator: what the clock shows, and how the call ends.
pub record Timed (A : Type 0) : Type 0 where
  pub now : ℕ
  pub race : Race A

-- Everything that `execute` meets besides its adapter's attempts: the clock at the start and before
-- the trace of a failure, the feature flag's source if there is one, the sink, and the call's id.
pub record Host : Type 0 where
  pub call_id : String
  pub deployment : Option Deployment
  pub ended_at : ℕ
  pub feature : Option (Timed Bool)
  pub registry : ModelCapability → String → Option AdapterDescriptor
  pub sink : Timed (Unit {0})
  pub started_at : ℕ

-- Deadlines are whole milliseconds: `other` stands for what is not a finite positive number.
pub record Request (Value : Type 0) : Type 0 where
  pub attach : ModelTaskId → Value → Value
  pub deadline_ms : Number
  pub exchanges : ℕ → Exchange Value
  pub has_operation_kind : Bool
  pub is_valid : ModelTaskId → Value → Bool
  pub prompt : ModelTaskId → Option PromptBundle
  pub task : String

pub record RoutedModelResult (Value : Type 0) : Type 0 where
  pub attempts : List ModelAttemptTrace
  pub descriptor : AdapterDescriptor
  pub finished_at : ℕ
  pub prompt : Option PromptBundle
  pub response : AdapterResponse Value
  pub task : ModelTaskId

abbrev pub Throws : Type 0 → Type 0
Throws A = Result Thrown A

abbrev throw : {A : Type 0} → RouterErrorCode → Throws A
throw code = err (router (router_error code))

-- What a caller gets, and the trace that was handed to the sink, if any was.
pub record Executed (Value : Type 0) : Type 0 where
  pub result : Throws (RoutedModelResult Value)
  pub recorded : Option ModelLogicalCallTrace

-- A source of flags that throws is a no, unless its time was up.
unfoldable pub flag_of : Throws Bool → Throws Bool
flag_of (ok b) = ok b
flag_of (err (router e)) = elim e.code [ deadline_error ↦ err (router e) | _ ↦ ok false ]
flag_of (err e) = ok false

unfoldable pub check_feature : Bool → Option (Timed Bool) → Bool → ℕ → Throws (Unit {0})
check_feature false feature has_kind deadline_at = ok tt
check_feature true none has_kind deadline_at = throw feature_disabled
check_feature true (some f) false deadline_at = throw feature_disabled
check_feature true (some f) true deadline_at = do
  on ← flag_of (with_deadline deadline_at f.now f.race)
  throw_if (not on) (router (router_error feature_disabled))

-- `verifyPromptRoute`, as a test.
prompt_fits : Option (String × String) → Option PromptBundle → Bool
prompt_fits none none = true
prompt_fits (some (id, version)) (some p) = p.id === id && p.version === version
prompt_fits _ _ = false

-- `Math.min(route.maxImmediateAttempts, adapter.descriptor.maxImmediateAttempts)`
unfoldable pub maximum_attempts : RouteDefinition → AdapterDescriptor → ℕ
maximum_attempts route d = elim d.max_immediate_attempts [
  | natural n ↦ min route.max_immediate_attempts n
  | other ↦ 0
]

module _ {Value : Type 0} (host : Host) (c : Call Value) where
  -- One round of the loop over the selectors.
  unfoldable pub run_selector : Bool → String → Progress → Outcome Value
  run_selector is_primary selector s = elim (host.registry c.route.capability selector) [
    | none ↦ raise (router (router_error adapter_unavailable))
    | some d ↦
        if is_eligible d c.route.capability selector host.deployment
        then attempt_loop c is_primary d (maximum_attempts c.route d) s
        else raise (router (router_error invalid_adapter_configuration))
  ]

  -- The fallback is called only where the first adapter's loop allows it.
  unfoldable pub run_selectors : Outcome Value
  run_selectors =
      elim (run_selector true c.route.requested_selector
        (record { attempts = []; failure = none })) [
          | stop s true ↦ elim c.route.fallback [
            | none ↦ stop s true
            | some selector ↦ run_selector false selector s
          ]
          | outcome ↦ outcome
        ]

  unfoldable pub trace_envelope :
      Option PromptBundle → Progress → ℕ → LogicalOutcome → ModelLogicalCallTrace
  trace_envelope prompt s finished_at outcome = record {
    attempts = s.attempts;
    call_id = host.call_id;
    duration_ms = finished_at - host.started_at;
    finished_at = finished_at;
    outcome = outcome;
    prompt = prompt;
    route_policy_version = "route-policy-v6";
    started_at = host.started_at;
    task = c.task;
  }

  -- From the end of the attempts to the end of the call. An error of the trace of a success is
  -- `trace_failure`; one of the trace of a failure is thrown in the failure's place.
  unfoldable pub conclude : Option PromptBundle → Outcome Value → Executed Value
  unfolding trace_envelope
  conclude prompt (raise e) = record { result = err e; recorded = none }
  conclude prompt (succeed s d response finished_at) =
      let t = trace_envelope prompt s finished_at call_success in
      if is_safe_trace t
      then record {
        result = elim (with_deadline c.deadline_at host.sink.now host.sink.race) [
          | err e ↦ throw trace_failure
          | ok _ ↦ ok (record {
            attempts = s.attempts;
            descriptor = d;
            finished_at = finished_at;
            prompt = prompt;
            response = response;
            task = c.task;
          })
        ];
        recorded = some t;
      }
      else record { result = throw trace_failure; recorded = none }
  conclude prompt (stop s eligible) =
      let t = trace_envelope prompt s host.ended_at call_failure in
      if is_safe_trace t
      then record {
        result = elim (with_deadline c.deadline_at host.sink.now host.sink.race) [
          | err e ↦ err e
          | ok _ ↦ err (
              router
                (elim s.failure [ none ↦ router_error provider_failure | some failure ↦ failure ]))
        ];
        recorded = some t;
      }
      else record { result = err foreign; recorded = none }

module _ {Value : Type 0} (host : Host) (r : Request Value) where
  abbrev pub call_of : ModelTaskId → ℕ → Call Value
  call_of task deadline_ms = record {
    task = task;
    route = route_policy_v6 task;
    deadline_at = host.started_at + deadline_ms;
    attach = r.attach task;
    is_valid = r.is_valid task;
    exchanges = r.exchanges;
  }

  abbrev pub refuse : Thrown → Executed Value
  refuse e = record { result = err e; recorded = none }

  -- The call of a known task with a deadline.
  unfoldable pub execute_task : ModelTaskId → ℕ → Executed Value
  unfolding prompt_fits
  execute_task task deadline_ms =
      let c = call_of task deadline_ms in
      elim (check_feature c.route.is_video_gated host.feature r.has_operation_kind c.deadline_at) [
        | err e ↦ refuse e
        | ok _ ↦
            if prompt_fits c.route.prompt (r.prompt task)
            then conclude host c (r.prompt task) (run_selectors host c)
            else refuse (router (router_error invalid_adapter_configuration))
      ]

  unfoldable pub execute : Executed Value
  execute = elim (as_model_task_id r.task) [
    | none ↦ refuse (router (router_error unknown_task))
    | some task ↦ elim r.deadline_ms [
      | other ↦ refuse (router (router_error deadline_error))
      | natural zero ↦ refuse (router (router_error deadline_error))
      | natural (suc n) ↦ execute_task task (suc n)
    ]
  ]
