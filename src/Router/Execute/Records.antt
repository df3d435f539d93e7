-- ===== src/Router/Execute/Records.antt =====
-- packages/model-router/src/router.ts: what `execute` returns, and what it hands to the sink.
use reflo_learning.Prelude.{
  suc, ◌≤◌, ◌≡◌, Number, natural, true, Option, none, some, ok, err, All, length,
}
use reflo_learning.Router.Policy.{ModelTaskId}
use reflo_learning.Router.Trace.{ModelLogicalCallTrace, call_success, is_safe_trace}
use reflo_learning.Router.Attempts.{Call, Thrown}
use reflo_learning.Router.Attempts.Bounds.{IsTimely, EndsInSuccess}
use reflo_learning.Router.Execute.{Host, Request, Executed, RoutedModelResult, Throws, call_of}
use reflo_learning.Router.Execute.Outcomes.{attempt_limit}

module _ {Value : Type 0} (c : Call Value) where
  -- A safe trace of a call of this task, within the limits of its route.
  pub record IsLogged (t : ModelLogicalCallTrace) : Type 0 where
    pub task : t.task ≡ c.task
    pub safe : is_safe_trace t ≡ true
    pub timely : All (IsTimely c (attempt_limit c.task)) t.attempts
    pub counted : length t.attempts ≤ attempt_limit c.task

  -- An answer, with the trace that was recorded for it.
  pub record IsEarned (answer : RoutedModelResult Value) (t : ModelLogicalCallTrace) : Type 0 where
    pub logged : IsLogged t
    pub told :
        (t.outcome ≡ call_success)
        × (t.attempts ≡ answer.attempts)
        × (t.finished_at ≡ answer.finished_at)
    pub task : answer.task ≡ c.task
    pub valid : c.is_valid answer.response.value ≡ true
    pub ends : EndsInSuccess answer.attempts
    pub in_time : answer.finished_at ≤ c.deadline_at

  abbrev pub IsAnswered : Throws (RoutedModelResult Value) → Option ModelLogicalCallTrace → Type 0
  IsAnswered (ok answer) (some t) = IsEarned answer t
  IsAnswered (ok answer) none = ⊥
  IsAnswered (err e) (some t) = IsLogged t
  IsAnswered (err e) none = Unit

module _ {Value : Type 0} (host : Host) (r : Request Value) where
  abbrev pub IsRefused : Executed Value → Type 0
  IsRefused e = (e.recorded ≡ none) × ((thrown : Thrown) × (e.result ≡ err thrown))

  -- A call of no known task, or with no deadline to keep, is refused; any other is answered.
  abbrev pub IsSettled : Option ModelTaskId → Number → Executed Value → Type 0
  IsSettled (some task) (natural (suc n)) e =
      IsAnswered (call_of host r task (suc n)) e.result e.recorded
  IsSettled _ _ e = IsRefused e
