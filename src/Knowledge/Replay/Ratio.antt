-- ===== src/Knowledge/Replay/Ratio.antt =====
-- packages/knowledge-model/src/knowledge-model.ts: `roundRatio`.
use reflo_learning.Prelude.{
  ℕ, ◌+◌, ◌-◌, ◌*◌, ◌/◌, ◌%◌, List, ◌∷◌, ◌++◌, leb, if◌then◌else◌, length, take, drop,
}
use reflo_learning.Prelude.Decimal.{to_decimal, pad_start}
use reflo_learning.Knowledge.Contracts.{score_quanta}

-- The nearest number of hundred-thousandths; a half is rounded up.
unfoldable pub rounded_quanta : ℕ → ℕ → ℕ
rounded_quanta n d =
    let scaled = n * score_quanta in if leb d (scaled % d * 2) then scaled / d + 1 else scaled / d

-- `${digits.slice(0, -5)}.${digits.slice(-5)}`
unfoldable pub five_places : List ℕ → List ℕ
five_places digits =
    let whole = length digits - 5 in take whole digits ++ (b'.' ∷ drop whole digits)

unfoldable pub round_ratio : ℕ → ℕ → List ℕ
round_ratio n d = five_places (pad_start 6 (to_decimal (rounded_quanta n d)))
