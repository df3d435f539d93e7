-- ===== src/Router/Attempts/Bounds.antt =====
-- What the loop over the attempts of one adapter keeps: attempts start before the deadline, are
-- within the limit, only a transient error is followed by another attempt, and only a valid result
-- that came in time is a success.
use reflo_learning.Prelude.{
  ℕ, zero, suc, ◌+◌, ◌≤◌, ◌<◌, ◌≡◌, ◌≢◌, refl, inl, inr, Bool, true, false, ◌&&◌, none, List, [],
  ◌∷◌, ◌++◌, All, All-append, length, length-append, ltb, leb, arith, Bool-cases, Result-cases,
}
use reflo_learning.Router.Policy.{ModelTaskId, media_tts}
use reflo_learning.Router.Trace.{
  ModelAttemptTrace, deadline_exceeded, success, transient_error, passed,
}
use reflo_learning.Router.Attempts.{
  AdapterError, Thrown, router, adapter, foreign, deadline_error, RouterError, with_deadline,
  AdapterResponse, Exchange, Progress, Call, Outcome, stop, succeed, raise, Round, retry, over,
  is_not_accepted, can_use_tts_fallback, attempt_trace, failed_trace, fail, on_response,
  on_adapter_error, on_thrown, attempt_once, attempt_loop,
}
use reflo_learning.Router.Attempts.Adapters.{AdapterDescriptor}

abbrev pub IsTransient : ModelAttemptTrace → Type 0
IsTransient t = t.outcome ≡ transient_error

-- Every attempt but the last ended in a transient error, and the last was a success.
pub record EndsInSuccess (ts : List ModelAttemptTrace) : Type 0 where
  pub earlier : List ModelAttemptTrace
  pub last : ModelAttemptTrace
  pub split : ts ≡ earlier ++ (last ∷ [])
  pub retried : All IsTransient earlier
  pub succeeded : last.outcome ≡ success
  pub validated : last.validation_status ≡ passed

fallback_facts :
    (task : ModelTaskId) (e : AdapterError)
    → can_use_tts_fallback task e ≡ true
    → (task ≡ media_tts) × (e.transient ≡ true) × (is_not_accepted e.submission_state ≡ true)
unfolding can_use_tts_fallback
fallback_facts task e h = ground arith

module _ {Value : Type 0} (c : Call Value) (limit : ℕ) where
  abbrev pub IsTimely : ModelAttemptTrace → Type 0
  IsTimely t = t.started_at < c.deadline_at

  -- The attempts so far: each failed for the moment, and each has been counted.
  pub record IsUnderWay (s : Progress) : Type 0 where
    pub timely : All IsTimely s.attempts
    pub retried : All IsTransient s.attempts
    pub counted : length s.attempts ≤ limit

  pub record IsStopped (s : Progress) (eligible : Bool) : Type 0 where
    pub timely : All IsTimely s.attempts
    pub counted : length s.attempts ≤ limit
    pub explained : s.failure ≢ none
    pub retried : eligible ≡ true → All IsTransient s.attempts
    pub speech_only : eligible ≡ true → c.task ≡ media_tts

  pub record IsSuccess (s : Progress) (response : AdapterResponse Value) (finished_at : ℕ)
      : Type 0 where
    pub timely : All IsTimely s.attempts
    pub counted : length s.attempts ≤ limit
    pub ends : EndsInSuccess s.attempts
    pub valid : c.is_valid response.value ≡ true
    pub in_time : finished_at ≤ c.deadline_at

  abbrev pub Ends : Outcome Value → Type 0
  Ends (stop s eligible) = IsStopped s eligible
  Ends (succeed s d response finished_at) = IsSuccess s response finished_at
  Ends (raise e) = Unit

  -- One more attempt than `n` is behind a retry.
  abbrev RoundEnds : ℕ → Round Value → Type 0
  RoundEnds n (retry s) =
      (s.failure ≢ none)
      × All IsTimely s.attempts
      × All IsTransient s.attempts
      × (length s.attempts ≡ n + 1)
  RoundEnds n (over outcome) = Ends outcome

  module _ (is_primary : Bool) (d : AdapterDescriptor) (s : Progress) (under_way : IsUnderWay s)
      (room : length s.attempts < limit) where
    IsTimely-fail : (t : ModelAttemptTrace) → IsTimely t → All IsTimely (s.attempts ++ (t ∷ []))
    IsTimely-fail t h = All-append IsTimely s.attempts (t ∷ []) under_way.timely (h, tt)

    counted_fail : (t : ModelAttemptTrace) → length (s.attempts ++ (t ∷ [])) ≤ limit
    counted_fail t = omega (arith, length-append s.attempts (t ∷ []))

    stopped : (t : ModelAttemptTrace) (e : RouterError) → IsTimely t → IsStopped (fail s t e) false
    stopped t e h = record {
      timely = IsTimely-fail t h;
      counted = counted_fail t;
      explained = λ n. cc;
      retried = λ n. absurd (cc);
      speech_only = λ n. absurd (cc);
    }

    on_response-Ends :
        (k : ℕ) (x : Exchange Value) (response : AdapterResponse Value)
        → x.started_at < c.deadline_at
        → Ends (on_response c is_primary d s k x response)
    unfolding on_response
    on_response-Ends k x response h = elim (Bool-cases (ltb c.deadline_at x.finished_at)) [
      | inl late ↦ rw late (stopped _ _ h)
      | inr early ↦ elim (Bool-cases (c.is_valid (c.attach response.value))) [
        | inr bad ↦ rw (early, bad) (stopped _ _ h)
        | inl good ↦
            rw (early, good)
              (record {
                timely = IsTimely-fail _ h;
                counted = counted_fail _;
                ends = record {
                  earlier = s.attempts;
                  last = attempt_trace d k x success passed response;
                  split = refl;
                  retried = under_way.retried;
                  succeeded = refl;
                  validated = refl;
                };
                valid = good;
                in_time = ground arith;
              })
      ]
    ]

    on_adapter_error-Ends :
        (rest k : ℕ) (x : Exchange Value) (e : AdapterError)
        → x.started_at < c.deadline_at
        → RoundEnds (length s.attempts) (on_adapter_error c is_primary d rest s k x e)
    unfolding on_adapter_error
    on_adapter_error-Ends rest k x e h =
        elim (Bool-cases (e.transient && ltb 0 rest && ltb x.finished_at c.deadline_at)) [
          | inl again ↦ rw again (
            (λ n. cc),
            IsTimely-fail _ h,
            All-append IsTransient s.attempts _ under_way.retried (ground arith, tt),
            length-append s.attempts _,
          )
          | inr last ↦ rw last (record {
            timely = IsTimely-fail _ h;
            counted = counted_fail _;
            explained = λ n. cc;
            retried = λ q.
                All-append IsTransient s.attempts _ under_way.retried
                  (ground (arith, fallback_facts c.task e), tt);
            speech_only = λ q. ground (arith, fallback_facts c.task e);
          })
        ]

    on_thrown-Ends :
        (rest k : ℕ) (x : Exchange Value) (e : Thrown)
        → x.started_at < c.deadline_at
        → RoundEnds (length s.attempts) (on_thrown c is_primary d rest s k x e)
    unfolding on_thrown
    on_thrown-Ends rest k x foreign h = tt
    on_thrown-Ends rest k x (adapter e) h = on_adapter_error-Ends rest k x e h
    on_thrown-Ends rest k x (router e) h =
        elim e.code
          as (λ code. RoundEnds (length s.attempts) (elim code [
            | deadline_error ↦
                over (stop (fail s (failed_trace d k x deadline_exceeded "timeout") e) false)
            | _ ↦ over (raise (router e))
          ])) [ deadline_error ↦ stopped _ _ h | _ ↦ tt ]

    -- One attempt keeps what was so, or ends the loop as it should.
    attempt_once-Ends :
        (rest : ℕ) → RoundEnds (length s.attempts) (attempt_once c is_primary d rest s)
    unfolding attempt_once
    attempt_once-Ends rest =
        let k = length s.attempts + 1 in
        let x = c.exchanges k in
        elim (Bool-cases (leb c.deadline_at x.started_at)) [
          | inl late ↦ rw late (record {
            timely = under_way.timely;
            counted = omega arith;
            explained = λ n. cc;
            retried = λ n. absurd (cc);
            speech_only = λ n. absurd (cc);
          })
          | inr started ↦ elim (Result-cases (with_deadline c.deadline_at x.called_at x.race)) [
            | inl (response, e) ↦ rw (started, e) (on_response-Ends k x response (ground arith))
            | inr (thrown, e) ↦ rw (started, e) (on_thrown-Ends rest k x thrown (ground arith))
          ]
        ]

  module _ (is_primary : Bool) (d : AdapterDescriptor) where
    after_round :
        (rest n : ℕ) (round : Round Value)
        → RoundEnds n round
        → n + suc rest ≤ limit
        → ((s' : Progress)
            → IsUnderWay s'
            → length s'.attempts + rest ≤ limit
            → s'.failure ≢ none
            → Ends (attempt_loop c is_primary d rest s'))
        → Ends
            (elim round [ retry s' ↦ attempt_loop c is_primary d rest s' | over outcome ↦ outcome ])
    after_round rest n (over outcome) h room next = h
    after_round rest n (retry s') (explained, timely, retried, size) room next =
        next s' (record { timely = timely; retried = retried; counted = omega arith }) (omega arith)
          explained

    explained_loop :
        (n : ℕ) (s : Progress)
        → IsUnderWay s
        → length s.attempts + n ≤ limit
        → s.failure ≢ none
        → Ends (attempt_loop c is_primary d n s)
    unfolding attempt_loop
    explained_loop zero s under_way room explained = record {
      timely = under_way.timely;
      counted = under_way.counted;
      explained = explained;
      retried = λ n. absurd (cc);
      speech_only = λ n. absurd (cc);
    }
    explained_loop (suc rest) s under_way room explained =
        after_round rest (length s.attempts) (attempt_once c is_primary d rest s)
          (attempt_once-Ends is_primary d s under_way (omega arith) rest) room (explained_loop rest)

    -- The loop of at least one attempt, begun within the limit, ends with attempts begun before the
    -- deadline and within the limit; it stops with a failure to report, lets the fallback be tried
    -- only for speech and after transient errors only, and succeeds only with a valid result that
    -- came in time after transient errors only.
    pub attempt_loop-Ends :
        (n : ℕ) (s : Progress)
        → 0 < n
        → IsUnderWay s
        → length s.attempts + n ≤ limit
        → Ends (attempt_loop c is_primary d n s)
    unfolding attempt_loop
    attempt_loop-Ends zero s h under_way room = absurd (omega arith)
    attempt_loop-Ends (suc rest) s h under_way room =
        after_round rest (length s.attempts) (attempt_once c is_primary d rest s)
          (attempt_once-Ends is_primary d s under_way (omega arith) rest) room (explained_loop rest)
