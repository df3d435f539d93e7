-- ===== src/Router/Execute/Outcomes.antt =====
-- What a caller of `execute` can rely on.
use reflo_learning.Prelude.{
  ℕ, ◌+◌, ◌≤◌, ◌<◌, ◌≡◌, refl, inl, inr, Bool, true, false, String, Option, none, some, length,
  arith, Bool-cases, Option-cases,
}
use reflo_learning.Router.Policy.{
  ModelTaskId, media_tts, curriculum_structure, ModelCapability, RouteDefinition, route_policy_v6,
}
use reflo_learning.Router.Attempts.{Call, Progress, Outcome, stop, succeed, raise}
use reflo_learning.Router.Attempts.Adapters.{
  AdapterDescriptor, Deployment, is_eligible, valid_attempts,
}
use reflo_learning.Router.Attempts.Bounds.{IsUnderWay, Ends, attempt_loop-Ends}
use reflo_learning.Router.Execute.{Host, maximum_attempts, run_selector, run_selectors}

-- Two attempts of one adapter; speech has a second adapter.
abbrev pub attempt_limit : ModelTaskId → ℕ
attempt_limit media_tts = 4
attempt_limit _ = 2

two-le-attempt_limit : (task : ModelTaskId) → 2 ≤ attempt_limit task
two-le-attempt_limit task = ground arith

pub route_attempts : (task : ModelTaskId) → (route_policy_v6 task).max_immediate_attempts ≡ 2
unfolding route_policy_v6
route_attempts curriculum_structure = refl
route_attempts _ = refl

maximum_attempts_bounds :
    (route : RouteDefinition) (d : AdapterDescriptor)
    → route.max_immediate_attempts ≡ 2
    → valid_attempts d.max_immediate_attempts ≡ true
    → (0 < maximum_attempts route d) × (maximum_attempts route d ≤ 2)
unfolding maximum_attempts valid_attempts
maximum_attempts_bounds route d r v = ground arith

eligible_attempts :
    (d : AdapterDescriptor) (capability : ModelCapability) (selector : String)
    (deployment : Option Deployment)
    → is_eligible d capability selector deployment ≡ true
    → valid_attempts d.max_immediate_attempts ≡ true
unfolding is_eligible
eligible_attempts d capability selector deployment h =
    elim (Bool-cases (valid_attempts d.max_immediate_attempts)) [
      | inl good ↦ good
      | inr bad ↦
          let refused : is_eligible d capability selector deployment ≡ false =
            rw (is_eligible, bad) refl in
          absurd (cc)
    ]

module _ {Value : Type 0} (host : Host) (c : Call Value)
    (two : c.route.max_immediate_attempts ≡ 2) where
  run_selector-Ends :
      (limit : ℕ) (is_primary : Bool) (selector : String) (s : Progress)
      → IsUnderWay c limit s
      → length s.attempts + 2 ≤ limit
      → Ends c limit (run_selector host c is_primary selector s)
  unfolding run_selector
  run_selector-Ends limit is_primary selector s under_way room =
      elim (Option-cases (host.registry c.route.capability selector)) [
        | inl absent ↦ rw (run_selector, absent) tt
        | inr (d, found) ↦
            elim (Bool-cases (is_eligible d c.route.capability selector host.deployment)) [
              | inr bad ↦ rw (run_selector, found, bad) tt
              | inl good ↦
                  let (some_left, few) =
                    maximum_attempts_bounds c.route d two
                      (eligible_attempts d c.route.capability selector host.deployment good) in
                  rw (run_selector, found, good)
                    (attempt_loop-Ends c limit is_primary d (maximum_attempts c.route d) s some_left
                      under_way (omega arith))
            ]
      ]

  weaken : (outcome : Outcome Value) → Ends c 2 outcome → Ends c (attempt_limit c.task) outcome
  weaken (stop s eligible) h = record {
    timely = h.timely;
    counted = omega (arith, h.counted, two-le-attempt_limit c.task);
    explained = h.explained;
    retried = h.retried;
    speech_only = h.speech_only;
  }
  weaken (succeed s d response finished_at) h = record {
    timely = h.timely;
    counted = omega (arith, h.counted, two-le-attempt_limit c.task);
    ends = h.ends;
    valid = h.valid;
    in_time = h.in_time;
  }
  weaken (raise e) h = tt

  after_primary :
      (outcome : Outcome Value)
      → Ends c 2 outcome
      → Ends c (attempt_limit c.task) (elim outcome [
        | stop s true ↦ elim c.route.fallback [
          | none ↦ stop s true
          | some selector ↦ run_selector host c false selector s
        ]
        | outcome ↦ outcome
      ])
  after_primary (stop s true) h =
      elim c.route.fallback
        as (λ fallback. Ends c (attempt_limit c.task) (elim fallback [
          | none ↦ stop s true
          | some selector ↦ run_selector host c false selector s
        ])) [
          | none ↦ weaken (stop s true) h
          | some selector ↦
              run_selector-Ends (attempt_limit c.task) false selector s
                (record {
                  timely = h.timely;
                  retried = h.retried refl;
                  counted = omega (arith, h.counted, two-le-attempt_limit c.task);
                })
                (ground (arith, h.counted, h.speech_only refl))
        ]
  after_primary (stop s false) h = weaken (stop s false) h
  after_primary (succeed s d response finished_at) h = weaken (succeed s d response finished_at) h
  after_primary (raise e) h = tt

  pub run_selectors-Ends : Ends c (attempt_limit c.task) (run_selectors host c)
  unfolding run_selectors
  run_selectors-Ends = after_primary _ (
      run_selector-Ends 2 true c.route.requested_selector _
        (record { timely = tt; retried = tt; counted = omega arith }) (omega arith))
