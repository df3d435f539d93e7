-- ===== src/Prelude/Traced.antt =====
-- Code that may throw and that calls other parts: an action keeps the list of its calls.
use mathlib.Core.List.{List, [], ◌∷◌, ◌++◌}
use reflo_learning.Prelude.Errors.{Result, ok, err}

abbrev pub Traced : (Call Thrown : Type 0) → Type 0 → Type 0
Traced Call Thrown A = List Call → Result Thrown A × List Call

module _ {Call Thrown : Type 0} where
  module _ {A : Type 0} where
    abbrev pub calling : Call → Result Thrown A → Traced Call Thrown A
    calling call r calls = (r, calls ++ (call ∷ []))

    abbrev pub raise : Thrown → Traced Call Thrown A
    raise e calls = (err e, calls)

    abbrev pub pure : A → Traced Call Thrown A
    pure a calls = (ok a, calls)

    -- A part that makes no call, with its error as one of the action's.
    abbrev pub lift_by : {Code : Type 0} → (Code → Thrown) → Result Code A → Traced Call Thrown A
    lift_by thrown (ok a) calls = (ok a, calls)
    lift_by thrown (err code) calls = (err (thrown code), calls)

  infixl 5 ◌>>=◌ ◌>>◌
  abbrev pub ◌>>=◌ :
      {A B : Type 0} → Traced Call Thrown A → (A → Traced Call Thrown B) → Traced Call Thrown B
  ◌>>=◌ first next calls =
      let (r, calls') = first calls in elim r [ err e ↦ (err e, calls') | ok a ↦ next a calls' ]

  abbrev pub ◌>>◌ :
      {A B : Type 0} → Traced Call Thrown A → Traced Call Thrown B → Traced Call Thrown B
  first >> next = first >>= (λ done. next)
