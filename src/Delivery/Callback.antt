-- ===== src/Delivery/Callback.antt =====
-- packages/delivery/src/telegram-callback.ts: UUIDs in the base64url of their bytes, in a button's text.
pub mod Lossless
pub mod RoundTrip
use reflo_learning.Prelude.{
  ℕ, zero, suc, ◌+◌, ◌-◌, ◌*◌, ◌/◌, ◌%◌, Bool, true, false, not, ◌&&◌, ◌||◌, Option, none, some,
  List, [], ◌∷◌, ◌++◌, map, Result, ok, err, ◌>>=◌, ◌>>◌, throw_if, guard, Number, natural, other,
  length, take, drop, all, ltb, leb, ◌==◌, if◌then◌else◌, units, units_eq, is_digit,
}
use reflo_learning.Prelude.Decimal.{to_decimal, of_decimal}
use reflo_learning.Delivery.Contracts.{invalid_input}
use reflo_learning.Delivery.Rules.{Throws}

pub record TelegramCallbackReference : Type 0 where
  pub answer_index : Number
  pub delivery_id : List ℕ
  pub delivery_item_id : List ℕ

unfoldable pub is_hex : ℕ → Bool
is_hex c = is_digit c || (leb b'a' c && leb c b'f') || (leb b'A' c && leb c b'F')

unfoldable pub hex_value : ℕ → ℕ
hex_value c = if is_digit c then c - b'0' else if leb b'a' c then c - b'a' + 10 else c - b'A' + 10

unfoldable pub hex_digit : ℕ → ℕ
hex_digit n = if ltb n 10 then b'0' + n else b'a' + (n - 10)

-- `Buffer.from(text, "hex")` of hexadecimal digits, and `toString("hex")`.
unfoldable pub bytes_of_hex : List ℕ → List ℕ
bytes_of_hex (h ∷ l ∷ cs) = (hex_value h * 16 + hex_value l) ∷ bytes_of_hex cs
bytes_of_hex _ = []

unfoldable pub hex_of_bytes : List ℕ → List ℕ
hex_of_bytes [] = []
hex_of_bytes (b ∷ bs) = hex_digit (b / 16) ∷ hex_digit (b % 16) ∷ hex_of_bytes bs

-- A character of base64url for six bits, and back.
unfoldable pub sextet : ℕ → ℕ
sextet n =
    if ltb n 26
    then b'A' + n
    else if ltb n 52
    then b'a' + (n - 26)
    else if ltb n 62
    then b'0' + (n - 52)
    else if n == 62
    then b'-'
    else b'_'

unfoldable pub is_sextet : ℕ → Bool
is_sextet c =
    is_digit c || (leb b'a' c && leb c b'z') || (leb b'A' c && leb c b'Z') || c == b'-' || c == b'_'

unfoldable pub of_sextet : ℕ → ℕ
of_sextet c =
    if c == b'-'
    then 62
    else if c == b'_'
    then 63
    else if leb c b'9'
    then c - b'0' + 52
    else if leb c b'Z'
    then c - b'A'
    else c - b'a' + 26

-- `bytes.toString("base64url")`, and `Buffer.from(text, "base64url")` of such characters.
unfoldable pub to_base64url : List ℕ → List ℕ
to_base64url (a ∷ b ∷ c ∷ bs) =
    sextet (a / 4)
    ∷ sextet (a % 4 * 16 + b / 16)
    ∷ sextet (b % 16 * 4 + c / 64)
    ∷ sextet (c % 64)
    ∷ to_base64url bs
to_base64url (a ∷ b ∷ []) = sextet (a / 4) ∷ sextet (a % 4 * 16 + b / 16) ∷ sextet (b % 16 * 4) ∷ []
to_base64url (a ∷ []) = sextet (a / 4) ∷ sextet (a % 4 * 16) ∷ []
to_base64url [] = []

unfoldable pub of_base64url : List ℕ → List ℕ
of_base64url (p ∷ q ∷ r ∷ s ∷ cs) =
    (of_sextet p * 4 + of_sextet q / 16)
    ∷ (of_sextet q % 16 * 16 + of_sextet r / 4)
    ∷ (of_sextet r % 4 * 64 + of_sextet s)
    ∷ of_base64url cs
of_base64url (p ∷ q ∷ r ∷ []) =
    (of_sextet p * 4 + of_sextet q / 16) ∷ (of_sextet q % 16 * 16 + of_sextet r / 4) ∷ []
of_base64url (p ∷ q ∷ []) = (of_sextet p * 4 + of_sextet q / 16) ∷ []
of_base64url _ = []

-- `value.replaceAll("-", "")`
unfoldable pub undashed : List ℕ → List ℕ
undashed [] = []
undashed (c ∷ cs) = let rest = undashed cs in if c == b'-' then rest else c ∷ rest

-- Groups of 8, 4, 4, 4 and all other characters.
unfoldable pub dashed : List ℕ → List ℕ
dashed cs =
    take 8 cs
    ++ (b'-'
        ∷ (take 4 (drop 8 cs)
            ++ (b'-'
                ∷ (take 4 (drop 12 cs) ++ (b'-' ∷ (take 4 (drop 16 cs) ++ (b'-' ∷ drop 20 cs)))))))

-- A safe integer from 0 to 99.
unfoldable pub index_of : Number → Throws ℕ
index_of other = err invalid_input
index_of (natural n) = if ltb 99 n then err invalid_input else ok n

-- `UUID_PATTERN`: 32 hexadecimal digits in groups.
unfoldable pub is_uuid : List ℕ → Bool
is_uuid value =
    length (undashed value) == 32
    && all is_hex (undashed value)
    && units_eq value (dashed (undashed value))

unfoldable pub compact_uuid : List ℕ → Throws (List ℕ)
compact_uuid value = do
  guard (is_uuid value) invalid_input
  ok (to_base64url (bytes_of_hex (undashed value)))

unfoldable pub expand_uuid : List ℕ → Throws (List ℕ)
expand_uuid value = do
  guard (length value == 22 && all is_sextet value) invalid_input
  let bytes = of_base64url value
  guard (length bytes == 16 && units_eq (to_base64url bytes) value) invalid_input
  ok (dashed (hex_of_bytes bytes))

abbrev pub byte_length_limit : ℕ
byte_length_limit = 64

-- All characters of the text are of one byte.
unfoldable pub encode_telegram_callback : TelegramCallbackReference → Throws (List ℕ)
encode_telegram_callback reference = do
  index ← index_of reference.answer_index
  delivery ← compact_uuid reference.delivery_id
  item ← compact_uuid reference.delivery_item_id
  let encoded = units "reflo" ++ (b':' ∷ (delivery ++ (b':' ∷ (item ++ (b':' ∷ to_decimal index)))))
  throw_if (ltb byte_length_limit (length encoded)) invalid_input
  ok encoded

-- `CALLBACK_PATTERN`, read from left to right.
unfoldable pub eat_all : List ℕ → List ℕ → Option (List ℕ)
eat_all [] cs = some cs
eat_all (p ∷ ps) [] = none
eat_all (p ∷ ps) (c ∷ cs) = if c == p then eat_all ps cs else none

-- `[0-9]|[1-9][0-9]`
unfoldable pub is_index : List ℕ → Bool
is_index (c ∷ []) = is_digit c
is_index (c ∷ d ∷ []) = leb b'1' c && leb c b'9' && is_digit d
is_index _ = false

abbrev pub is_compact : List ℕ → Bool
is_compact cs = length cs == 22 && all is_sextet cs

abbrev pub or_unmatched : {A : Type 0} → Option A → Throws A
or_unmatched none = err invalid_input
or_unmatched (some a) = ok a

unfoldable pub decode_telegram_callback : List ℕ → Throws TelegramCallbackReference
decode_telegram_callback value = do
  after ← or_unmatched (eat_all (units "reflo:") value)
  guard (is_compact (take 22 after)) invalid_input
  second ← or_unmatched (eat_all (b':' ∷ []) (drop 22 after))
  guard (is_compact (take 22 second)) invalid_input
  index ← or_unmatched (eat_all (b':' ∷ []) (drop 22 second))
  guard (is_index index) invalid_input
  delivery ← expand_uuid (take 22 after)
  item ← expand_uuid (take 22 second)
  ok (record {
    answer_index = natural (of_decimal index);
    delivery_id = delivery;
    delivery_item_id = item;
  })
