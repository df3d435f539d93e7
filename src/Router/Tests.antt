-- ===== src/Router/Tests.antt =====
-- packages/model-router: calls of the router on concrete inputs.
use mathlib.Core.Bool.{decide}
use reflo_learning.Prelude.{
  ℕ, zero, suc, ◌≡◌, refl, true, false, Option, some, none, [], Result, ok, err, arith, natural,
  length, leb, units, is_digest,
}
use reflo_learning.Router.Policy.{
  lesson_text, grounded_generation, route_policy_v6, as_model_task_id, ModelCapability-discrete,
}
use reflo_learning.Router.Trace.{is_safe_trace, PromptBundle, safe_token}
use reflo_learning.Router.Attempts.{
  Thrown, resolves, rejects, adapter, accepted, Exchange, attempt_loop, attempt_once, with_deadline,
}
use reflo_learning.Router.Attempts.Adapters.{AdapterDescriptor, is_eligible, valid_attempts}
use reflo_learning.Router.Attempts.Bounds.{Ends, attempt_loop-Ends}
use reflo_learning.Router.Execute.{
  Host, Request, RoutedModelResult, execute, execute_task, call_of, run_selector, run_selectors,
  conclude, check_feature, maximum_attempts,
}

abbrev qwen : AdapterDescriptor
qwen = record {
  adapter_version = "qwen-1";
  capability = grounded_generation;
  development_only = false;
  drift_canary_passed = true;
  embedding_profile_version = none;
  effective_model = "qwen-plus";
  effective_model_version = "2026-01";
  max_immediate_attempts = natural 2;
  media_submission_idempotent = false;
  mutable_alias = false;
  selector = "qwen.grounded-generation";
}

abbrev host : Host
host = record {
  call_id = "call-1";
  deployment = none;
  ended_at = 900;
  feature = none;
  registry = λ capability selector. some qwen;
  sink = record { now = 800; race = resolves tt };
  started_at = 100;
}

-- The first attempt meets a rate limit, the second one answers.
abbrev exchanges : ℕ → Exchange ℕ
exchanges (suc zero) = record {
  started_at = 110;
  called_at = 111;
  finished_at = 200;
  race = rejects (
      adapter
        (record { safe_code = "rate_limited"; submission_state = accepted; transient = true }));
}
exchanges _ = record {
  started_at = 210;
  called_at = 211;
  finished_at = 700;
  race =
      resolves
        (record { effective_model = none; provider_request_id = none; usage = none; value = 42 });
}

abbrev lesson_prompt : PromptBundle
lesson_prompt = record {
  digest = "0123456789abcdef0123456789abcdef0123456789abcdef0123456789abcdef";
  definition_digest = "";
  generation_parameters_version = "1";
  id = "lesson-text";
  version = "2";
}

abbrev lesson : Request ℕ
lesson = record {
  attach = λ task value. value;
  deadline_ms = natural 1_000;
  exchanges = exchanges;
  has_operation_kind = false;
  is_valid = λ task value. leb 40 value;
  prompt = λ task. some lesson_prompt;
  task = "lesson.text.v1";
}

attempts_of : Result Thrown (RoutedModelResult ℕ) → Option ℕ
attempts_of (ok answer) = some (length answer.attempts)
attempts_of (err e) = none

lesson_answered : attempts_of (execute host lesson).result ≡ some 2
unfolding attempts_of execute execute_task as_model_task_id route_policy_v6 check_feature
    run_selectors run_selector is_eligible valid_attempts maximum_attempts attempt_loop attempt_once
    with_deadline conclude is_safe_trace safe_token is_digest units decide ModelCapability-discrete
lesson_answered = refl

attempt_loop-Ends_example : Ends (call_of host lesson lesson_text 1_000) 2 (
    attempt_loop
      (call_of host lesson lesson_text 1_000)
      true
      qwen
      2
      (record { attempts = []; failure = none }))
attempt_loop-Ends_example =
    attempt_loop-Ends (call_of host lesson lesson_text 1_000) 2 true qwen 2
      (record { attempts = []; failure = none }) (omega arith)
      (record { timely = tt; retried = tt; counted = omega arith }) (omega arith)
