-- ===== src/Assessment/Grading/Waiting.antt =====
-- packages/assessment/src/service.ts: the tries of `acquireShortAnswerClaim`, counted by the clock.
use reflo_learning.Prelude.{
  ℕ, zero, suc, ◌+◌, ◌≤◌, ◌<◌, ◌≢◌, inl, inr, Option, none, some, Number-cases, Result, ok, err,
  Result-cases, Bool-cases, ltb, arith,
}
use reflo_learning.Assessment.Contracts.{ShortAnswerClaim, claimed, pending, finalized}
use reflo_learning.Assessment.Actions.{GradeShortAnswerCommand, Thrown, Host, Ids}
use reflo_learning.Assessment.Grading.{
  acquire, grade_deadline, grade_short_answer, validate_command, answer_claim,
}

-- The clock of the loop moves on by a millisecond or more from one try to the next.
pub record IsTicking (host : Host) : Type 0 where
  pub after_start : host.started_at ≤ (host.poll 0).now
  pub moves : (k : ℕ) → (host.poll k).now < (host.poll (suc k)).now

abbrev Ends : Option (Result Thrown ShortAnswerClaim) → Type 0
Ends none = ⊥
Ends (some (ok pending)) = ⊥
Ends (some (ok (claimed token snapshot))) = Unit
Ends (some (ok (finalized view))) = Unit
Ends (some (err e)) = Unit

try_again :
    (claim : Result Thrown ShortAnswerClaim) (rest : Option (Result Thrown ShortAnswerClaim))
    → Ends rest
    → Ends (elim claim [ ok pending ↦ rest | r ↦ some r ])
try_again (ok pending) rest h = h
try_again (ok (claimed token snapshot)) rest h = tt
try_again (ok (finalized view)) rest h = tt
try_again (err e) rest h = tt

module _ (ids : Ids) (host : Host) (c : GradeShortAnswerCommand) (ticking : IsTicking host) where
  -- One more try than there are milliseconds left is enough.
  acquire-Ends :
      (deadline_at fuel k : ℕ)
      → deadline_at ≤ (host.poll k).now + fuel
      → Ends (acquire ids host c deadline_at (suc fuel) k)
  unfolding acquire
  acquire-Ends deadline_at zero k enough = elim (Bool-cases (ltb (host.poll k).now deadline_at)) [
    | inr late ↦ rw late tt
    | inl early ↦ absurd (ground arith)
  ]
  acquire-Ends deadline_at (suc fuel) k enough =
      elim (Bool-cases (ltb (host.poll k).now deadline_at)) [
        | inr late ↦ rw late tt
        | inl early ↦
            rw early (
              try_again _ _
                (acquire-Ends deadline_at fuel (suc k) (omega (arith, ticking.moves k))))
      ]

  ended :
      (deadline_at : ℕ) (tried : Option (Result Thrown ShortAnswerClaim))
      → Ends tried
      → answer_claim ids host c deadline_at tried ≢ none
  ended deadline_at none h q = h
  ended deadline_at (some (ok pending)) h q = h
  ended deadline_at (some (ok (claimed token snapshot))) h q = cc
  ended deadline_at (some (ok (finalized view))) h q = cc
  ended deadline_at (some (err e)) h q = cc

  grade_deadline-ends : (deadline_ms : ℕ) → grade_deadline ids host c deadline_ms ≢ none
  unfolding grade_deadline
  grade_deadline-ends deadline_ms = ended (host.started_at + deadline_ms) _ (
      acquire-Ends (host.started_at + deadline_ms) deadline_ms 0
        (omega (arith, ticking.after_start)))

  -- With a clock that moves on between two tries, `gradeShortAnswer` comes to an end: the tries to
  -- claim the question stop by the deadline, and a result or an error is returned.
  pub grade_short_answer-ends : grade_short_answer ids host c ≢ none
  unfolding grade_short_answer
  grade_short_answer-ends q = elim (Result-cases (validate_command c)) [
    | inr (code, bad) ↦ absurd (ground arith)
    | inl (u, valid) ↦ elim (Number-cases c.deadline_ms) [
      | inl odd ↦ absurd (ground arith)
      | inr (zero, whole) ↦ absurd (ground arith)
      | inr (suc n, whole) ↦ grade_deadline-ends (suc n) (ground arith)
    ]
  ]
