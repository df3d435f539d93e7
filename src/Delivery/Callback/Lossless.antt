-- ===== src/Delivery/Callback/Lossless.antt =====
-- packages/delivery/src/telegram-callback.ts: UUIDs, compacted and expanded.
use reflo_learning.Prelude.{
  ℕ, zero, suc, ◌+◌, ◌*◌, ◌/◌, ◌%◌, ◌≡◌, ◌<◌, refl, sym, ap, ◌∙◌, true, ◌&&◌, List, [], ◌∷◌, ◌++◌,
  map, ok, All, length, take, drop, all, leb, if◌then◌else◌, units_eq_refl, eq_of_units_eq, arith,
}
use reflo_learning.Delivery.Callback.{
  is_hex, hex_value, hex_digit, bytes_of_hex, hex_of_bytes, sextet, is_sextet, of_sextet,
  to_base64url, of_base64url, undashed, dashed, is_uuid, compact_uuid, expand_uuid,
}

abbrev pub IsByte : ℕ → Type 0
IsByte b = b < 256

-- `toLowerCase` of a character of a UUID.
abbrev pub lower : ℕ → ℕ
lower c = if leb b'A' c && leb c b'F' then c + 32 else c

of_sextet-sextet : (n : ℕ) → n < 64 → of_sextet (sextet n) ≡ n
unfolding of_sextet sextet
of_sextet-sextet n h = ground arith

sextet-is_sextet : (n : ℕ) → n < 64 → is_sextet (sextet n) ≡ true
unfolding is_sextet sextet
sextet-is_sextet n h = ground arith

hex_value-less : (c : ℕ) → is_hex c ≡ true → hex_value c < 16
unfolding is_hex hex_value
hex_value-less c h = ground arith

hex_digit-hex_value : (c : ℕ) → is_hex c ≡ true → hex_digit (hex_value c) ≡ lower c
unfolding is_hex hex_value hex_digit
hex_digit-hex_value c h = ground arith

-- Bytes in base64url.
three_bytes :
    (a b c : ℕ)
    → IsByte a
    → IsByte b
    → IsByte c
    → (a / 4 * 4 + (a % 4 * 16 + b / 16) / 16 ≡ a)
      × ((a % 4 * 16 + b / 16) % 16 * 16 + (b % 16 * 4 + c / 64) / 4 ≡ b)
      × ((b % 16 * 4 + c / 64) % 4 * 64 + c % 64 ≡ c)
three_bytes a b c p q r = (omega arith, omega arith, omega arith)

of_base64url-to_base64url : (bs : List ℕ) → All IsByte bs → of_base64url (to_base64url bs) ≡ bs
unfolding of_base64url to_base64url
of_base64url-to_base64url [] p = refl
of_base64url-to_base64url (a ∷ []) (p, ps) =
    rw (of_sextet-sextet (a / 4) (omega arith), of_sextet-sextet (a % 4 * 16) (omega arith))
      (ap (λ x. x ∷ []) (omega arith))
of_base64url-to_base64url (a ∷ b ∷ []) (p, (q, ps)) =
    let x : a / 4 * 4 + (a % 4 * 16 + b / 16) / 16 ≡ a = omega arith in
    let y : (a % 4 * 16 + b / 16) % 16 * 16 + b % 16 * 4 / 4 ≡ b = omega arith in
    rw
      (
        of_sextet-sextet (a / 4) (omega arith),
        of_sextet-sextet (a % 4 * 16 + b / 16) (omega arith),
        of_sextet-sextet (b % 16 * 4) (omega arith),
      )
      (rw (x, y) refl)
of_base64url-to_base64url (a ∷ b ∷ c ∷ bs) (p, (q, (r, ps))) =
    let (x, y, z) = three_bytes a b c p q r in
    rw
      (
        of_sextet-sextet (a / 4) (omega arith),
        of_sextet-sextet (a % 4 * 16 + b / 16) (omega arith),
        of_sextet-sextet (b % 16 * 4 + c / 64) (omega arith),
        of_sextet-sextet (c % 64) (omega arith),
      )
      (rw (x, y, z, of_base64url-to_base64url bs ps) refl)

to_base64url-is_sextet : (bs : List ℕ) → All IsByte bs → all is_sextet (to_base64url bs) ≡ true
unfolding to_base64url
to_base64url-is_sextet [] p = refl
to_base64url-is_sextet (a ∷ []) (p, ps) =
    rw (sextet-is_sextet (a / 4) (omega arith), sextet-is_sextet (a % 4 * 16) (omega arith)) refl
to_base64url-is_sextet (a ∷ b ∷ []) (p, (q, ps)) =
    rw
      (
        sextet-is_sextet (a / 4) (omega arith),
        sextet-is_sextet (a % 4 * 16 + b / 16) (omega arith),
        sextet-is_sextet (b % 16 * 4) (omega arith),
      )
      refl
to_base64url-is_sextet (a ∷ b ∷ c ∷ bs) (p, (q, (r, ps))) =
    rw
      (
        sextet-is_sextet (a / 4) (omega arith),
        sextet-is_sextet (a % 4 * 16 + b / 16) (omega arith),
        sextet-is_sextet (b % 16 * 4 + c / 64) (omega arith),
        sextet-is_sextet (c % 64) (omega arith),
      )
      (to_base64url-is_sextet bs ps)

length-to_base64url : (bs : List ℕ) → length (to_base64url bs) ≡ (4 * length bs + 2) / 3
unfolding to_base64url
length-to_base64url [] = refl
length-to_base64url (a ∷ []) = refl
length-to_base64url (a ∷ b ∷ []) = refl
length-to_base64url (a ∷ b ∷ c ∷ bs) = omega (arith, length-to_base64url bs)

-- Bytes in hexadecimal digits.
bytes_of_hex-IsByte : (cs : List ℕ) → all is_hex cs ≡ true → All IsByte (bytes_of_hex cs)
unfolding bytes_of_hex
bytes_of_hex-IsByte [] p = tt
bytes_of_hex-IsByte (h ∷ []) p = tt
bytes_of_hex-IsByte (h ∷ l ∷ cs) p = (
  omega (arith, hex_value-less h (ground arith), hex_value-less l (ground arith)),
  bytes_of_hex-IsByte cs (ground arith),
)

length-bytes_of_hex : (cs : List ℕ) → length (bytes_of_hex cs) ≡ length cs / 2
unfolding bytes_of_hex
length-bytes_of_hex [] = refl
length-bytes_of_hex (h ∷ []) = refl
length-bytes_of_hex (h ∷ l ∷ cs) = omega (arith, length-bytes_of_hex cs)

hex_of_bytes-bytes_of_hex :
    (cs : List ℕ)
    → all is_hex cs ≡ true
    → length cs % 2 ≡ 0
    → hex_of_bytes (bytes_of_hex cs) ≡ map lower cs
unfolding hex_of_bytes bytes_of_hex
hex_of_bytes-bytes_of_hex [] p even = refl
hex_of_bytes-bytes_of_hex (h ∷ []) p even = absurd (omega arith)
hex_of_bytes-bytes_of_hex (h ∷ l ∷ cs) p even =
    let high = hex_value-less h (ground arith) in
    let low = hex_value-less l (ground arith) in
    let x : (hex_value h * 16 + hex_value l) / 16 ≡ hex_value h = omega arith in
    let y : (hex_value h * 16 + hex_value l) % 16 ≡ hex_value l = omega arith in
    rw
      (
        x,
        y,
        hex_digit-hex_value h (ground arith),
        hex_digit-hex_value l (ground arith),
        hex_of_bytes-bytes_of_hex cs (ground arith) (omega arith),
      )
      refl

map-take : (f : ℕ → ℕ) (n : ℕ) (cs : List ℕ) → map f (take n cs) ≡ take n (map f cs)
map-take f zero cs = refl
map-take f (suc n) [] = refl
map-take f (suc n) (c ∷ cs) = ap (λ x. f c ∷ x) (map-take f n cs)

map-drop : (f : ℕ → ℕ) (n : ℕ) (cs : List ℕ) → map f (drop n cs) ≡ drop n (map f cs)
map-drop f zero cs = refl
map-drop f (suc n) [] = refl
map-drop f (suc n) (c ∷ cs) = map-drop f n cs

map-append : (f : ℕ → ℕ) (cs ds : List ℕ) → map f (cs ++ ds) ≡ map f cs ++ map f ds
map-append f [] ds = refl
map-append f (c ∷ cs) ds = ap (λ x. f c ∷ x) (map-append f cs ds)

-- A group, a dash and the rest.
map-group :
    (f : ℕ → ℕ) (n k : ℕ) (cs ds es : List ℕ)
    → f b'-' ≡ b'-'
    → map f ds ≡ es
    → map f (take n (drop k cs) ++ (b'-' ∷ ds)) ≡ take n (drop k (map f cs)) ++ (b'-' ∷ es)
map-group f n k cs ds es dash same =
    rw
      (
        map-append f (take n (drop k cs)) (b'-' ∷ ds),
        map-take f n (drop k cs),
        map-drop f k cs,
        dash,
        same,
      )
      refl

map-dashed : (f : ℕ → ℕ) (cs : List ℕ) → f b'-' ≡ b'-' → map f (dashed cs) ≡ dashed (map f cs)
unfolding dashed
map-dashed f cs dash = map-group f 8 0 cs _ _ dash (
    map-group f 4 8 cs _ _ dash
      (map-group f 4 12 cs _ _ dash (map-group f 4 16 cs _ _ dash (map-drop f 20 cs))))

-- A UUID, in whatever case its digits are, is compacted to 22 characters of base64url, and these expand
-- to the UUID in lower case.
pub expand_uuid-compact_uuid :
    (value : List ℕ)
    → is_uuid value ≡ true
    → (text : List ℕ) × (compact_uuid value ≡ ok text)
      × (length text ≡ 22)
      × (expand_uuid text ≡ ok (map lower value))
unfolding compact_uuid expand_uuid is_uuid
expand_uuid-compact_uuid value h =
    let digits = undashed value in
    let bytes = bytes_of_hex digits in
    let text = to_base64url bytes in
    let all_hex : all is_hex digits ≡ true = ground arith in
    let long : length digits ≡ 32 = ground arith in
    let shape : value ≡ dashed digits = eq_of_units_eq value (dashed digits) (ground arith) in
    let are_bytes = bytes_of_hex-IsByte digits all_hex in
    let sixteen : length bytes ≡ 16 = omega (arith, length-bytes_of_hex digits) in
    let size : length text ≡ 22 = omega (arith, length-to_base64url bytes) in
    let same = of_base64url-to_base64url bytes are_bytes in
    let lowered : hex_of_bytes bytes ≡ map lower digits =
      hex_of_bytes-bytes_of_hex digits all_hex (omega arith) in
    (
      text,
      rw h refl,
      size,
      rw (size, to_base64url-is_sextet bytes are_bytes, same, sixteen, units_eq_refl text, lowered)
          (ap ok (sym (map-dashed lower digits refl) ∙ ap (map lower) (sym shape))),
    )
