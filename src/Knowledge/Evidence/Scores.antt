-- ===== src/Knowledge/Evidence/Scores.antt =====
-- packages/knowledge-model/src/knowledge-model.ts: `parseScoreQuanta`.
pub mod Range
use reflo_learning.Prelude.{
  ℕ, zero, suc, ◌+◌, ◌*◌, ◌-◌, ◌≤◌, ◌<◌, ◌^◌, ◌≡◌, refl, Bool, true, false, not, ◌&&◌, ◌||◌, Option,
  none, some, List, [], ◌∷◌, ◌++◌, Result, ok, err, ◌==◌, if◌then◌else◌, span_digits, all, arith,
  length, is_digit,
}
use reflo_learning.Prelude.Decimal.{of_decimal, pad_end}
use reflo_learning.Knowledge.Contracts.{score_quanta, KnowledgeModelErrorCode, invalid_score}

abbrev pub is_nil : List ℕ → Bool
is_nil [] = true
is_nil (c ∷ cs) = false

-- `(?:\.\d{1,5})?$`: the digits behind the point.
unfoldable pub fraction : List ℕ → Option (List ℕ)
fraction [] = some []
fraction (c ∷ cs) =
    let (digits, rest) = span_digits 5 cs in
    if c == b'.' && not (is_nil digits) && is_nil rest then some digits else none

-- A one before the point allows zeros only behind it.
unfoldable pub score_of : ℕ → List ℕ → Result KnowledgeModelErrorCode ℕ
score_of whole digits =
    if whole == b'0' || (whole == b'1' && all (λ c. c == b'0') digits)
    then ok ((whole - b'0') * score_quanta + of_decimal (pad_end 5 digits))
    else err invalid_score

unfoldable pub parse_score_quanta : List ℕ → Result KnowledgeModelErrorCode ℕ
parse_score_quanta [] = err invalid_score
parse_score_quanta (whole ∷ rest) = elim (fraction rest) [
  | none ↦ err invalid_score
  | some digits ↦ score_of whole digits
]
