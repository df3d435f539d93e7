-- ===== src/Delivery/Tests.antt =====
-- packages/delivery: a quiz that is sent by mail, and the answer to it.
use reflo_learning.Prelude.{
  natural, arith, map, length, ◌≤◌, ℕ, ◌≡◌, refl, true, none, some, List, [], ◌∷◌, ok, err, ltb,
  if◌then◌else◌, units, units_eq,
}
use reflo_learning.Delivery.Contracts.{
  email_link_contract_version, delivery_expired, email, telegram, KnowledgeAuthorizationContext,
  DemoDeliveryDestination, ReservedDelivery, pending, created, DeliveryAnswerInput,
}
use reflo_learning.Delivery.Rules.{EmailTokenClaims, Runtime, Config, parse_timestamp}
use reflo_learning.Delivery.Tokens.{claims_of, email_token, sign, verify_email_token}
use reflo_learning.Delivery.Tokens.Lasting.{IsCodec, all_texts, verify_email_token-email_token}
use reflo_learning.Prelude.Decimal.{of_decimal}
use reflo_learning.Delivery.Webhook.{
  ParsedUpdate, TelegramCallback, parse_telegram_callback, admit_webhook, IsFromChat,
  admit_webhook-IsFromChat,
}
use reflo_learning.Delivery.Callback.{
  expand_uuid, eat_all, is_index, is_sextet, of_base64url, of_sextet, to_base64url, sextet,
  hex_of_bytes, hex_digit, is_uuid, undashed, dashed, is_hex, encode_telegram_callback,
  decode_telegram_callback,
}
use reflo_learning.Delivery.Callback.Lossless.{lower}
use reflo_learning.Delivery.Callback.RoundTrip.{decode_telegram_callback-encode_telegram_callback}
use reflo_learning.Delivery.Dispatch.{DispatchCommand, Host, foreign}
use reflo_learning.Delivery.Answers.{AnswerHost, submit_email}
use reflo_learning.Delivery.Answers.Guarded.{IsSubmitted, submit_email-IsSubmitted}

abbrev learner : KnowledgeAuthorizationContext
learner = record { actor_id = "user-1"; authorization_id = "grant-1"; owner_scope_id = "owner-1" }

abbrev inbox : DemoDeliveryDestination
inbox = record {
  authorization = learner;
  channel_identity_id = "channel-1";
  provider = email;
  recipient = "learner@example.org";
  recipient_lookup_digest = "0123456789abcdef0123456789abcdef0123456789abcdef0123456789abcdef";
  telegram_webhook_secret = none;
}

abbrev quiz : ReservedDelivery
quiz = record {
  delivery_id = "delivery-1";
  expires_at = "2026-01-02Z";
  items = [];
  provider = email;
  provider_message_id = none;
  status = pending;
}

abbrev claims : EmailTokenClaims
claims = record {
  channel_identity_id = "channel-1";
  delivery_id = "delivery-1";
  expires_at = "2026-01-02Z";
  owner_scope_id = "owner-1";
  token_id = "token-1";
  user_id = "user-1";
  version = email_link_contract_version;
}

-- A day of January stands for its time, and a key signs by itself.
abbrev runtime : Runtime
runtime = record {
  parse_date = λ text. if units_eq (units text) (units "2026-01-02Z") then some 2 else some 1;
  to_iso = λ t. some "2026-01-02Z";
  is_time_zone = λ zone. true;
  hmac = λ key payload. b's' ∷ [];
  encode_claims = λ c. b'p' ∷ [];
  decode_claims = λ payload. some (all_texts claims);
  token_id = λ id. "token-1";
  digest = λ token. "digest-1";
  encode_component = λ token. token;
}

abbrev config : Config
config = record {
  destinations = inbox ∷ [];
  default_preference = record { chosen_local_time = "08:30"; provider = email; time_zone = "UTC" };
  email_link_origin = some "https://reflo.example";
  email_link_signing_key = some (b'k' ∷ []);
  ports = email ∷ telegram ∷ [];
}

-- The message is taken, but the repository cannot keep it.
abbrev host : Host
host = record {
  preference = ok none;
  reserve = λ request. ok (some quiz);
  bind_email_token = λ digest. ok tt;
  claim_dispatch = λ lease. ok true;
  send = λ message. ok "message-1";
  mark_submitted = λ id. err foreign;
  mark_failed = λ ambiguous code. ok tt;
}

abbrev command : DispatchCommand
command = record { authorization = learner; idempotency_key = "key-1"; now = "2026-01-01Z" }

runtime-IsCodec : IsCodec runtime (claims_of runtime quiz inbox)
runtime-IsCodec = record {
  payload_has_no_point = (refl, tt);
  signature_has_no_point = λ key payload. (refl, tt);
  reads_back = refl;
}

abbrev token : List ℕ
token = b'p' ∷ b'.' ∷ b's' ∷ []

signed : email_token runtime config quiz inbox ≡ ok token
unfolding email_token sign
signed = refl

expiry : parse_timestamp runtime "2026-01-02Z" ≡ ok 2
unfolding parse_timestamp units units_eq
expiry = refl

today : parse_timestamp runtime "2026-01-01Z" ≡ ok 1
unfolding parse_timestamp units units_eq
today = refl

verify_email_token-email_token_example :
    verify_email_token runtime config token "2026-01-01Z"
    ≡ (if ltb 2 1 then err delivery_expired else ok (claims_of runtime quiz inbox))
verify_email_token-email_token_example =
    verify_email_token-email_token runtime config quiz inbox token "2026-01-01Z" 2 1 runtime-IsCodec
      signed expiry today

abbrev answer_host : AnswerHost
answer_host = record {
  preference = ok none;
  save = λ p. ok p;
  load_preview = λ request. ok none;
  finalize = λ request. ok (
      record {
        delivery_preference = "daily";
        evidence = "evidence-1";
        result = record {
          attempt_id = "attempt-1";
          correct = true;
          current_streak = 1;
          longest_streak = 1;
          status = created;
        };
      }
      ∷ []);
  record_evidence = λ f. ok tt;
}

abbrev chosen : List DeliveryAnswerInput
chosen = record { answer = "1"; delivery_item_id = "item-1" } ∷ []

submit_email-IsSubmitted_example :
    IsSubmitted runtime config answer_host learner token chosen "2026-01-01Z"
      (submit_email runtime config answer_host learner token chosen "2026-01-01Z" []).0
      (submit_email runtime config answer_host learner token chosen "2026-01-01Z" []).1
submit_email-IsSubmitted_example =
    submit_email-IsSubmitted runtime config answer_host learner token chosen "2026-01-01Z"

abbrev quiz_uuid : List ℕ
quiz_uuid = units "0123ABCD-4567-89ef-0123-456789abcdef"

abbrev item_uuid : List ℕ
item_uuid = units "ffffffff-0000-4000-8000-0123456789ab"

uuids : (is_uuid quiz_uuid ≡ true) × (is_uuid item_uuid ≡ true)
unfolding is_uuid undashed dashed is_hex units units_eq
uuids = (refl, refl)

decode_telegram_callback-encode_telegram_callback_example :
    (text : List ℕ) × (encode_telegram_callback (record {
      answer_index = natural 12;
      delivery_id = quiz_uuid;
      delivery_item_id = item_uuid;
    })
      ≡ ok text)
    × (length text ≤ 54)
    × (decode_telegram_callback text
        ≡ ok (record {
          answer_index = natural 12;
          delivery_id = map lower quiz_uuid;
          delivery_item_id = map lower item_uuid;
        }))
decode_telegram_callback-encode_telegram_callback_example =
    decode_telegram_callback-encode_telegram_callback 12 quiz_uuid item_uuid (omega arith) uuids.0
      uuids.1

abbrev update : ParsedUpdate
update = record {
  update_id = none;
  callback = some (record {
    id = some "callback-1";
    chat_id = some "4711";
    sender_id = some "4711";
    payload = some (units "reflo:ASOrzUVnie8BI0VniavN7w:_____wAAQACAAAEjRWeJqw:12");
  });
}

abbrev callback : TelegramCallback
callback = record {
  chat_id = "4711";
  provider_submission_id = "callback-1";
  reference = record {
    answer_index = natural 12;
    delivery_id = units "0123abcd-4567-89ef-0123-456789abcdef";
    delivery_item_id = item_uuid;
  };
  sender_id = "4711";
}

abbrev chat : DemoDeliveryDestination
chat = record inbox {
  provider = telegram;
  recipient = "4711";
  telegram_webhook_secret = some "secret-of-the-chat";
}

abbrev chat_config : Config
chat_config = record config { destinations = inbox ∷ chat ∷ [] }

let_in :
    admit_webhook (λ body. some update) (λ body. 2) chat_config "{}" (some "secret-of-the-chat")
    ≡ ok (callback, chat)
unfolding admit_webhook parse_telegram_callback decode_telegram_callback expand_uuid eat_all
    is_index is_sextet of_base64url of_sextet to_base64url sextet hex_of_bytes hex_digit dashed
    units units_eq of_decimal
let_in = refl

admit_webhook-IsFromChat_example :
    IsFromChat
      (λ body. some update)
      (λ body. 2)
      chat_config
      "{}"
      (some "secret-of-the-chat")
      callback
      chat
admit_webhook-IsFromChat_example =
    admit_webhook-IsFromChat (λ body. some update) (λ body. 2) chat_config "{}"
      (some "secret-of-the-chat") callback chat let_in
