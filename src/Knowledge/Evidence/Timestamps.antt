-- ===== src/Knowledge/Evidence/Timestamps.antt =====
-- packages/knowledge-model/src/knowledge-model.ts: the patterns of `parseTrustedTimestamp` and
-- `normalizeTimestampOrder`.
use reflo_learning.Prelude.{
  ℕ, Bool, false, ◌&&◌, ◌||◌, Option, none, some, List, [], ◌∷◌, ◌++◌, Result, ok, err, ◌==◌,
  if◌then◌else◌, eat_digits, eat, span_digits, take,
}
use reflo_learning.Prelude.Decimal.{pad_end}
use reflo_learning.Knowledge.Contracts.{KnowledgeModelErrorCode, invalid_timestamp}
use reflo_learning.Knowledge.Evidence.Scores.{is_nil}

infixl 5 ◌>>=◌
abbrev ◌>>=◌ {ℓ κ} : {A : Type ℓ} {B : Type κ} → Option A → (A → Option B) → Option B
none >>= f = none
some a >>= f = f a

-- `\d{4}-\d{2}-\d{2}T\d{2}:\d{2}:\d{2}`
date_time : List ℕ → Option (List ℕ)
date_time cs = do
  a ← eat_digits 4 cs
  b ← eat b'-' a
  c ← eat_digits 2 b
  d ← eat b'-' c
  e ← eat_digits 2 d
  f ← eat b'T' e
  g ← eat_digits 2 f
  h ← eat b':' g
  i ← eat_digits 2 h
  j ← eat b':' i
  eat_digits 2 j

-- `(?:\.(\d{1,6}))?`: the digits and what follows. A point with no digit matches nothing.
sub_second : List ℕ → List ℕ × List ℕ
sub_second [] = ([], [])
sub_second (c ∷ cs) =
    let (digits, rest) = span_digits 6 cs in
    if c == b'.' then (if is_nil digits then ([], c ∷ cs) else (digits, rest)) else ([], c ∷ cs)

-- `(?:Z|[+-]\d{2}:\d{2})$`
is_zone : List ℕ → Bool
is_zone [] = false
is_zone (c ∷ cs) =
    if c == b'Z'
    then is_nil cs
    else if c == b'+' || c == b'-'
    then elim (do a ← eat_digits 2 cs; b ← eat b':' a; eat_digits 2 b) [
      | none ↦ false
      | some rest ↦ is_nil rest
    ]
    else false

unfoldable pub is_trusted_timestamp : List ℕ → Bool
unfolding date_time sub_second is_zone
is_trusted_timestamp cs = elim (date_time cs) [
  | none ↦ false
  | some rest ↦ is_zone (sub_second rest).1
]

-- `Z$`
is_utc : List ℕ → Bool
is_utc [] = false
is_utc (c ∷ cs) = c == b'Z' && is_nil cs

-- The date and time, then six digits of the second.
unfoldable pub normalize_timestamp_order : List ℕ → Result KnowledgeModelErrorCode (List ℕ)
unfolding date_time sub_second is_utc
normalize_timestamp_order cs = elim (date_time cs) [
  | none ↦ err invalid_timestamp
  | some rest ↦
      let (digits, zone) = sub_second rest in
      if is_utc zone
      then ok (take 19 cs ++ (b'.' ∷ (pad_end 6 digits ++ (b'Z' ∷ []))))
      else err invalid_timestamp
]
