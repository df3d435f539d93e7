-- ===== src/Delivery/Callback/RoundTrip.antt =====
-- packages/delivery/src/telegram-callback.ts: the texts of callbacks, written and read.
use reflo_learning.Prelude.{
  ℕ, zero, suc, ◌≡◌, ◌<◌, ◌≤◌, refl, ap, ◌∙◌, inl, inr, true, false, List, [], ◌∷◌, ◌++◌, map, ok,
  length, length-append, take, drop, ltb, units, natural, guard, bind_ok, guard-ok, arith,
  Bool-cases,
}
use reflo_learning.Prelude.Decimal.{
  to_decimal, of_decimal, of_decimal-to_decimal, to_decimal-one, to_decimal-two,
}
use reflo_learning.Delivery.Contracts.{invalid_input}
use reflo_learning.Delivery.Callback.{
  is_uuid, expand_uuid, index_of, is_index, is_compact, eat_all, byte_length_limit,
  encode_telegram_callback, decode_telegram_callback,
}
use reflo_learning.Delivery.Callback.Lossless.{lower, expand_uuid-compact_uuid}

take-append : (n : ℕ) (cs ds : List ℕ) → length cs ≡ n → take n (cs ++ ds) ≡ cs
take-append zero [] ds h = refl
take-append zero (c ∷ cs) ds h = absurd (omega arith)
take-append (suc n) [] ds h = absurd (omega arith)
take-append (suc n) (c ∷ cs) ds h = ap (λ x. c ∷ x) (take-append n cs ds (omega arith))

drop-append : (n : ℕ) (cs ds : List ℕ) → length cs ≡ n → drop n (cs ++ ds) ≡ ds
drop-append zero [] ds h = refl
drop-append zero (c ∷ cs) ds h = absurd (omega arith)
drop-append (suc n) [] ds h = absurd (omega arith)
drop-append (suc n) (c ∷ cs) ds h = drop-append n cs ds (omega arith)

to_decimal-is_index :
    (n : ℕ) → n < 100 → (is_index (to_decimal n) ≡ true) × (length (to_decimal n) ≤ 2)
unfolding is_index
to_decimal-is_index n h = elim (Bool-cases (ltb n 10)) [
  | inl one ↦ rw (to_decimal-one n (ground arith)) (ground arith, omega arith)
  | inr two ↦ rw (to_decimal-two n (ground arith) h) (ground arith, omega arith)
]

expand_uuid-is_compact :
    (text : List ℕ) {v : List ℕ} → expand_uuid text ≡ ok v → is_compact text ≡ true
unfolding expand_uuid
expand_uuid-is_compact text h =
    bind_ok (guard (is_compact text) invalid_input) _ h
      λ u passed rest. guard-ok (is_compact text) invalid_input passed

abbrev callback_of : List ℕ → List ℕ → List ℕ → List ℕ
callback_of a b index = units "reflo" ++ (b':' ∷ (a ++ (b':' ∷ (b ++ (b':' ∷ index)))))

module _ (a b index : List ℕ) where
  length-callback_of :
      length a ≡ 22 → length b ≡ 22 → length index ≤ 2 → length (callback_of a b index) ≤ 54
  unfolding units
  length-callback_of p q r =
      omega (arith, length-append a (b':' ∷ (b ++ (b':' ∷ index))), length-append b (b':' ∷ index))

  decode_callback_of :
      {v w : List ℕ}
      → length a ≡ 22
      → length b ≡ 22
      → expand_uuid a ≡ ok v
      → expand_uuid b ≡ ok w
      → is_index index ≡ true
      → decode_telegram_callback (callback_of a b index)
        ≡ ok (record {
          answer_index = natural (of_decimal index);
          delivery_id = v;
          delivery_item_id = w;
        })
  unfolding decode_telegram_callback eat_all units
  decode_callback_of p q x y is_number =
      let after = b ++ (b':' ∷ index) in
      rw
        (
          take-append 22 a (b':' ∷ after) p,
          drop-append 22 a (b':' ∷ after) p,
          take-append 22 b (b':' ∷ index) q,
          drop-append 22 b (b':' ∷ index) q,
          expand_uuid-is_compact a x,
          expand_uuid-is_compact b y,
          is_number,
          x,
          y,
        )
        refl

-- For an answer below 100 and two UUIDs a text is made, of at most 54 characters, and it is read as the
-- same answer and the two UUIDs in lower case.
pub decode_telegram_callback-encode_telegram_callback :
    (n : ℕ) (delivery item : List ℕ)
    → n < 100
    → is_uuid delivery ≡ true
    → is_uuid item ≡ true
    → (text : List ℕ) × (encode_telegram_callback
          (record { answer_index = natural n; delivery_id = delivery; delivery_item_id = item })
        ≡ ok text)
      × (length text ≤ 54)
      × (decode_telegram_callback text
          ≡ ok (record {
            answer_index = natural n;
            delivery_id = map lower delivery;
            delivery_item_id = map lower item;
          }))
unfolding encode_telegram_callback index_of
decode_telegram_callback-encode_telegram_callback n delivery item few p q =
    let (a, made_a, size_a, read_a) = expand_uuid-compact_uuid delivery p in
    let (b, made_b, size_b, read_b) = expand_uuid-compact_uuid item q in
    let (is_number, short) = to_decimal-is_index n few in
    let size = length-callback_of a b (to_decimal n) size_a size_b short in
    let fits : ltb byte_length_limit (length (callback_of a b (to_decimal n))) ≡ false =
      ground arith in
    let small : ltb 99 n ≡ false = ground arith in
    (
      callback_of a b (to_decimal n),
      rw (small, made_a, made_b, fits) refl,
      size,
      decode_callback_of a b (to_decimal n) size_a size_b read_a read_b is_number
          ∙ ap
              (λ m. ok (record {
                answer_index = natural m;
                delivery_id = map lower delivery;
                delivery_item_id = map lower item;
              }))
              (of_decimal-to_decimal n),
    )
