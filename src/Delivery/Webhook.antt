-- ===== src/Delivery/Webhook.antt =====
-- packages/delivery/src/service.ts: which calls `handleTelegramWebhook` lets in. `JSON.parse` is a parameter: of the update it
-- gives the keys that the code reads, and texts stand for numbers by `String`.
use mathlib.Core.List.{Memᴰ}
use mathlib.Core.Path.{subst}
use reflo_learning.Prelude.{
  ℕ, ◌≡◌, refl, sym, ap, ◌∙◌, inl, inr, String, Bool, true, false, ◌&&◌, Option, none, some, List,
  ok, err, ◌>>=◌, ◌>>◌, throw_if, guard, length, all, find, ltb, ◌===◌, ===_iff, is_digit, units,
  Option-cases, ok-injective, guard-ok, bind_ok, arith, throw_if-ok, find-ok, ◌<◌, ◌≤◌, ◌⊎◌,
}
use reflo_learning.Delivery.Contracts.{
  invalid_input, invalid_signature, telegram, email, DemoDeliveryProvider, DemoDeliveryDestination,
}
use reflo_learning.Delivery.Rules.{Throws, Config, same_provider}
use reflo_learning.Delivery.Callback.{TelegramCallbackReference, decode_telegram_callback}

abbrev pub max_webhook_bytes : ℕ
max_webhook_bytes = 16_384

-- `none` is a key that is not there, or is no object or text.
pub record ParsedCallback : Type 0 where
  pub id : Option String
  pub chat_id : Option String
  pub sender_id : Option String
  pub payload : Option (List ℕ)

pub record ParsedUpdate : Type 0 where
  pub update_id : Option String
  pub callback : Option ParsedCallback

pub record TelegramCallback : Type 0 where
  pub chat_id : String
  pub provider_submission_id : String
  pub reference : TelegramCallbackReference
  pub sender_id : String

abbrev pub or_invalid : {A : Type 0} → Option A → Throws A
or_invalid none = err invalid_input
or_invalid (some a) = ok a

-- `/^\d+$/`
abbrev pub is_number : String → Bool
is_number s = ltb 0 (length (units s)) && all is_digit (units s)

abbrev pub or_else : Option String → Option String → Option String
or_else none b = b
or_else (some a) b = some a

-- `parseTelegramCallback`, once the body is parsed. A key of no object is no text.
unfoldable pub parse_telegram_callback : ParsedUpdate → Throws TelegramCallback
parse_telegram_callback update = do
  callback ← or_invalid update.callback
  payload ← or_invalid callback.payload
  reference ← decode_telegram_callback payload
  chat_id ← or_invalid callback.chat_id
  sender_id ← or_invalid callback.sender_id
  guard (is_number chat_id && is_number sender_id) invalid_input
  submission ← or_invalid (or_else callback.id update.update_id)
  ok (record {
    chat_id = chat_id;
    provider_submission_id = submission;
    reference = reference;
    sender_id = sender_id;
  })

abbrev pub is_chat_of : TelegramCallback → DemoDeliveryDestination → Bool
is_chat_of c d =
    same_provider d.provider telegram && d.recipient === c.chat_id && d.recipient === c.sender_id

abbrev pub holds_secret : Option String → Option String → Bool
holds_secret none given = false
holds_secret (some secret) none = secret === ""
holds_secret (some secret) (some given) = secret === given

-- What is let in to `finalizeAnswers`: the callback, and the destination that it is from.
unfoldable pub admit_webhook :
    (parse_json : String → Option ParsedUpdate)
    → (byte_length : String → ℕ) → Config
    → (raw_body : String) → (secret_token : Option String)
    → Throws (TelegramCallback × DemoDeliveryDestination)
admit_webhook parse_json byte_length config raw_body secret_token = do
  throw_if (ltb max_webhook_bytes (byte_length raw_body)) invalid_input
  update ← or_invalid (parse_json raw_body)
  callback ← parse_telegram_callback update
  destination ← elim (find (is_chat_of callback) config.destinations) [
    | none ↦ err invalid_signature
    | some d ↦ ok d
  ]
  guard (holds_secret destination.telegram_webhook_secret secret_token) invalid_signature
  ok (callback, destination)

abbrev pub HoldsGiven : String → Option String → Type 0
HoldsGiven s none = s ≡ ""
HoldsGiven s (some given) = s ≡ given

-- What the message says: `d`'s recipient is the chat and the sender of the callback in the update, both
-- are numbers, and `c` has what the callback holds.
pub record IsSaid (update : ParsedUpdate) (c : TelegramCallback) (recipient : String) : Type 0 where
  pub said : ParsedCallback
  pub there : update.callback ≡ some said
  pub chat : said.chat_id ≡ some recipient
  pub sender : said.sender_id ≡ some recipient
  pub number : (0 < length (units recipient)) × (all is_digit (units recipient) ≡ true)
  pub text : List ℕ
  pub payload : said.payload ≡ some text
  pub names : decode_telegram_callback text ≡ ok c.reference
  pub same_chat : c.chat_id ≡ recipient
  pub same_sender : c.sender_id ≡ recipient
  pub submission :
      (said.id ≡ some c.provider_submission_id)
      ⊎ ((said.id ≡ none) × (update.update_id ≡ some c.provider_submission_id))

-- The destination's chat sent the message, and the webhook knows the destination's secret.
pub record IsFromChat (parse_json : String → Option ParsedUpdate) (byte_length : String → ℕ)
    (config : Config) (raw_body : String) (secret_token : Option String) (c : TelegramCallback)
    (d : DemoDeliveryDestination) : Type 0 where
  pub short : byte_length raw_body ≤ 16_384
  pub update : ParsedUpdate
  pub parsed : parse_json raw_body ≡ some update
  pub message : IsSaid update c d.recipient
  pub known : Memᴰ d config.destinations
  pub by_telegram : d.provider ≡ telegram
  pub secret : (s : String) × (d.telegram_webhook_secret ≡ some s) × HoldsGiven s secret_token

HoldsGiven-lem :
    (s : String) (given : Option String) → holds_secret (some s) given ≡ true → HoldsGiven s given
HoldsGiven-lem s none h = (===_iff s "").0 h
HoldsGiven-lem s (some given) h = (===_iff s given).0 h

holds_secret-some :
    (kept given : Option String)
    → holds_secret kept given ≡ true
    → (s : String) × (kept ≡ some s) × HoldsGiven s given
holds_secret-some none given h = absurd (cc)
holds_secret-some (some s) given h = (s, refl, HoldsGiven-lem s given h)

same_provider-telegram : (p : DemoDeliveryProvider) → same_provider p telegram ≡ true → p ≡ telegram
same_provider-telegram telegram h = refl
same_provider-telegram email h = absurd (cc)

or_invalid-ok : {A : Type 0} (o : Option A) {v : A} → or_invalid o ≡ ok v → o ≡ some v
or_invalid-ok none h = absurd (cc)
or_invalid-ok (some w) h = cc

or_else-some :
    (a b : Option String) {s : String}
    → or_else a b ≡ some s
    → (a ≡ some s) ⊎ ((a ≡ none) × (b ≡ some s))
or_else-some none b h = inr (refl, h)
or_else-some (some x) b h = inl h

-- A callback that is parsed from an update, when its chat and its sender are a recipient's.
parse_telegram_callback-IsSaid :
    (update : ParsedUpdate) (recipient : String) {c : TelegramCallback}
    → parse_telegram_callback update ≡ ok c
    → recipient ≡ c.chat_id
    → recipient ≡ c.sender_id
    → IsSaid update c recipient
unfolding parse_telegram_callback
parse_telegram_callback-IsSaid update recipient {c} h chat sender =
    bind_ok (or_invalid update.callback) _ h λ said there h₁.
      bind_ok (or_invalid said.payload) _ h₁ λ text payload h₂.
        bind_ok (decode_telegram_callback text) _ h₂ λ reference names h₃.
          bind_ok (or_invalid said.chat_id) _ h₃ λ chat_id in_chat h₄.
            bind_ok (or_invalid said.sender_id) _ h₄ λ sender_id by_sender h₅.
              bind_ok (guard (is_number chat_id && is_number sender_id) invalid_input) _ h₅
                λ u numbers h₆.
                  bind_ok (or_invalid (or_else said.id update.update_id)) _ h₆
                    λ submission submitted h₇.
                      let its : ◌≡◌ {A = TelegramCallback}
                          (record {
                            chat_id = chat_id;
                            provider_submission_id = submission;
                            reference = reference;
                            sender_id = sender_id;
                          })
                          c =
                        ok-injective h₇ in
                      let the_chat : chat_id ≡ recipient =
                        ap (λ (x : TelegramCallback). x.chat_id) its ∙ sym chat in
                      let the_sender : sender_id ≡ recipient =
                        ap (λ (x : TelegramCallback). x.sender_id) its ∙ sym sender in
                      let both =
                        guard-ok (is_number chat_id && is_number sender_id) invalid_input numbers in
                      record {
                        said = said;
                        there = or_invalid-ok update.callback there;
                        chat = or_invalid-ok said.chat_id in_chat ∙ ap some the_chat;
                        sender = or_invalid-ok said.sender_id by_sender ∙ ap some the_sender;
                        number =
                            subst (λ x. (0 < length (units x)) × (all is_digit (units x) ≡ true))
                              the_chat (ground arith, ground arith);
                        text = text;
                        payload = or_invalid-ok said.payload payload;
                        names = names ∙ ap (λ (x : TelegramCallback). ok x.reference) its;
                        same_chat = sym chat;
                        same_sender = sym sender;
                        submission = or_else-some said.id update.update_id (
                            or_invalid-ok (or_else said.id update.update_id) submitted
                            ∙ ap (λ (x : TelegramCallback). some x.provider_submission_id) its);
                      }

-- A webhook call is let in only for a message of at most 16,384 bytes whose callback says, in the message
-- itself, that its chat and its sender are the recipient of a destination for Telegram that is
-- configured and has a secret, and the call has that secret. The callback that is let in has that chat
-- and sender, the answer that the message's payload encodes, and the message's id or, without one, the
-- update's.
pub admit_webhook-IsFromChat :
    (parse_json : String → Option ParsedUpdate) (byte_length : String → ℕ) (config : Config)
    (raw_body : String) (secret_token : Option String) (c : TelegramCallback)
    (d : DemoDeliveryDestination)
    → admit_webhook parse_json byte_length config raw_body secret_token ≡ ok (c, d)
    → IsFromChat parse_json byte_length config raw_body secret_token c d
unfolding admit_webhook
admit_webhook-IsFromChat parse_json byte_length config raw_body secret_token c d h =
    bind_ok (throw_if (ltb max_webhook_bytes (byte_length raw_body)) invalid_input) _ h
      λ u small h₁. bind_ok (or_invalid (parse_json raw_body)) _ h₁ λ update parsed h₂.
        bind_ok (parse_telegram_callback update) _ h₂ λ callback read h₃.
          elim (Option-cases (find (is_chat_of callback) config.destinations)) [
            | inl nobody ↦ absurd (ground arith)
            | inr (destination, found) ↦
                let h₄ = rw found at h₃ in
                bind_ok
                  (guard (holds_secret destination.telegram_webhook_secret secret_token)
                    invalid_signature)
                  _ h₄
                  λ v safe h₅.
                    let same : ◌≡◌ {A = TelegramCallback × DemoDeliveryDestination}
                        (callback, destination) (c, d) =
                      ok-injective h₅ in
                    let (member, test) = find-ok (is_chat_of callback) config.destinations found in
                    subst
                      (λ (p : TelegramCallback × DemoDeliveryDestination).
                        IsFromChat parse_json byte_length config raw_body secret_token p.0 p.1)
                      same
                      (record {
                        short = ground (arith, throw_if-ok _ _ small);
                        update = update;
                        parsed = or_invalid-ok (parse_json raw_body) parsed;
                        message =
                            parse_telegram_callback-IsSaid update destination.recipient read
                              ((===_iff destination.recipient callback.chat_id).0 (ground arith))
                              ((===_iff destination.recipient callback.sender_id).0 (ground arith));
                        known = member;
                        by_telegram = same_provider-telegram destination.provider (ground arith);
                        secret =
                            holds_secret-some destination.telegram_webhook_secret secret_token (
                              guard-ok
                                (holds_secret destination.telegram_webhook_secret secret_token)
                                invalid_signature safe);
                      })
          ]
