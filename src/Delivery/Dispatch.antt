-- ===== src/Delivery/Dispatch.antt =====
-- packages/delivery/src/service.ts: `DemoDeliveryService.dispatch`. What it meets, the repository and the
-- message ports, is the record `Host`; `foreign` is any other error.
pub mod Quiet
pub mod Accounts
use reflo_learning.Prelude.{
  ℕ, ◌+◌, ◌*◌, String, Bool, true, false, ◌||◌, Option, none, some, List, [], ◌∷◌, ◌++◌, map,
  Result, ok, err, any, if◌then◌else◌, units, guard,
}
use reflo_learning.Prelude.Traced.{Traced, calling, raise, pure, lift_by, ◌>>=◌, ◌>>◌}
use reflo_learning.Delivery.Contracts.{
  demo_delivery_contract_version, DeliveryErrorCode, delivery_expired, dispatch_ambiguous,
  dispatch_failed, invalid_configuration, DemoDeliveryProvider, email, telegram,
  KnowledgeAuthorizationContext, DeliveryPreferenceSettings, DemoDeliveryDestination,
  DeliveryQuestion, ReservedDeliveryItem, DeliveryStatus, cancelled, delivered, expired, failed,
  pending, processing, submitted, DeliveryOf, ReservedDelivery, DeliveryMessage, DispatchStatus,
  created, replayed, DeliveryDispatchResult,
}
use reflo_learning.Delivery.Rules.{
  Throws, Runtime, Config, parse_timestamp, validate_identity, same_provider, destination_for,
  preference_of,
}
use reflo_learning.Delivery.Tokens.{email_token}

pub data Thrown : Type 0 where
  delivery_error : DeliveryErrorCode → Thrown
  foreign : Thrown

pub record DispatchCommand : Type 0 where
  pub authorization : KnowledgeAuthorizationContext
  pub idempotency_key : String
  pub now : String

pub record ReserveRequest : Type 0 where
  pub destination : DemoDeliveryDestination
  pub expires_at : String
  pub idempotency_key : List ℕ
  pub now : String

pub record Host : Type 0 where
  pub preference : Result Thrown (Option DeliveryPreferenceSettings)
  pub reserve : ReserveRequest → Result Thrown (Option ReservedDelivery)
  pub bind_email_token : (token_digest : String) → Result Thrown (Unit {0})
  pub claim_dispatch : (lease_expires_at : String) → Result Thrown Bool
  pub send : DeliveryMessage → Result Thrown String
  pub mark_submitted : (provider_message_id : String) → Result Thrown ReservedDelivery
  pub mark_failed : (ambiguous : Bool) → DeliveryErrorCode → Result Thrown (Unit {0})

pub data Call : Type 0 where
  loading_preference : Call
  reserving : ReserveRequest → Call
  binding : (token_digest : String) → Call
  claiming : (lease_expires_at : String) → Call
  sending : DeliveryMessage → Call
  submitting : (provider_message_id : String) → Call
  failing : (ambiguous : Bool) → DeliveryErrorCode → Call

abbrev pub Action : Type 0 → Type 0
Action = Traced Call Thrown

abbrev pub lift : {A : Type 0} → Throws A → Action A
lift = lift_by delivery_error

abbrev pub public_question : ReservedDeliveryItem → DeliveryQuestion
public_question item = item.shown

abbrev pub public_delivery : ReservedDelivery → DeliveryOf DeliveryQuestion
public_delivery d = record {
  delivery_id = d.delivery_id;
  expires_at = d.expires_at;
  items = map public_question d.items;
  provider = d.provider;
  provider_message_id = d.provider_message_id;
  status = d.status;
}

-- `new Date(t).toISOString()`; a time out of range is a `RangeError`.
abbrev pub iso : Runtime → ℕ → Action String
iso rt t calls = elim (rt.to_iso t) [ none ↦ (err foreign, calls) | some text ↦ (ok text, calls) ]

abbrev pub code_of : Thrown → DeliveryErrorCode
code_of (delivery_error code) = code
code_of foreign = dispatch_failed

abbrev pub is_ambiguous : Thrown → Bool
is_ambiguous (delivery_error dispatch_ambiguous) = true
is_ambiguous _ = false

module _ (rt : Runtime) (config : Config) (host : Host) where
  abbrev pub message_of :
      ReservedDelivery → DemoDeliveryDestination → Option (List ℕ) → DeliveryMessage
  message_of d destination link = record {
    delivery_id = d.delivery_id;
    email_link = link;
    expires_at = d.expires_at;
    provider = d.provider;
    questions = map public_question d.items;
    recipient = destination.recipient;
  }

  -- The `catch` of `dispatch`.
  unfoldable pub fail_dispatch : (accepted : Bool) → Thrown → Action (Option DeliveryDispatchResult)
  fail_dispatch accepted e =
      let ambiguous = accepted || is_ambiguous e in
      calling (failing ambiguous (code_of e)) (host.mark_failed ambiguous (code_of e))
      >> raise (delivery_error (if ambiguous then dispatch_ambiguous else dispatch_failed))

  -- From the answer of the message port on.
  unfoldable pub mark_dispatch : Result Thrown String → Action (Option DeliveryDispatchResult)
  mark_dispatch (err e) calls = fail_dispatch false e calls
  mark_dispatch (ok id) calls =
      let calls' = calls ++ (submitting id ∷ []) in
      elim (host.mark_submitted id) [
        | err e ↦ fail_dispatch true e calls'
        | ok finalized ↦
            (ok (some (record { delivery = public_delivery finalized; status = created })), calls')
      ]

  unfoldable pub send_claimed : DeliveryMessage → Action (Option DeliveryDispatchResult)
  send_claimed message calls = mark_dispatch (host.send message) (calls ++ (sending message ∷ []))

  abbrev pub send_if : Bool → DeliveryMessage → Action (Option DeliveryDispatchResult)
  send_if false message = raise (delivery_error dispatch_ambiguous)
  send_if true message = send_claimed message

  -- `emailLink`, and the binding of its token.
  unfoldable pub email_link_of :
      ReservedDelivery → DemoDeliveryDestination → Action (Option (List ℕ))
  email_link_of d destination = do
    token ← lift (email_token rt config d destination)
    origin ←
        lift (elim config.email_link_origin [ none ↦ err invalid_configuration | some o ↦ ok o ])
    let link = units origin ++ (units "/review?token=" ++ rt.encode_component token)
    calling (binding (rt.digest token)) (host.bind_email_token (rt.digest token))
    pure (some link)

  abbrev pub link_for :
      ReservedDelivery → DemoDeliveryDestination → DemoDeliveryProvider → Action (Option (List ℕ))
  link_for d destination telegram = pure none
  link_for d destination email = email_link_of d destination

  unfoldable pub dispatch_pending :
      (now : ℕ)
      → ReservedDelivery
      → DemoDeliveryDestination
      → Action (Option DeliveryDispatchResult)
  dispatch_pending now d destination = do
    link ← link_for d destination d.provider
    lease_expires_at ← iso rt (now + 600_000)
    is_claimed ← calling (claiming lease_expires_at) (host.claim_dispatch lease_expires_at)
    send_if is_claimed (message_of d destination link)

  abbrev pub answer_status :
      (now : ℕ)
      → ReservedDelivery
      → DemoDeliveryDestination
      → DeliveryStatus
      → Action (Option DeliveryDispatchResult)
  answer_status now d destination submitted =
      pure (some (record { delivery = public_delivery d; status = replayed }))
  answer_status now d destination delivered =
      pure (some (record { delivery = public_delivery d; status = replayed }))
  answer_status now d destination processing = raise (delivery_error dispatch_ambiguous)
  answer_status now d destination pending = dispatch_pending now d destination
  answer_status now d destination expired = raise (delivery_error delivery_expired)
  answer_status now d destination cancelled = raise (delivery_error dispatch_failed)
  answer_status now d destination failed = raise (delivery_error dispatch_failed)

  -- What follows the reservation.
  unfoldable pub dispatch_reserved :
      (now : ℕ)
      → DemoDeliveryDestination
      → Option ReservedDelivery
      → Action (Option DeliveryDispatchResult)
  dispatch_reserved now destination none = pure none
  dispatch_reserved now destination (some d) = answer_status now d destination d.status

  abbrev pub request_of :
      DispatchCommand → DemoDeliveryDestination → (expires_at reserved_at : String) → ReserveRequest
  request_of c destination expires_at reserved_at = record {
    destination = destination;
    expires_at = expires_at;
    idempotency_key = units demo_delivery_contract_version ++ (b'/' ∷ units c.idempotency_key);
    now = reserved_at;
  }

  unfoldable pub dispatch : DispatchCommand → Action (Option DeliveryDispatchResult)
  dispatch c = do
    lift (validate_identity c.idempotency_key)
    now ← lift (parse_timestamp rt c.now)
    persisted ← calling loading_preference host.preference
    preference ← lift (preference_of rt config c.authorization persisted)
    destination ← lift (destination_for config c.authorization preference.provider)
    lift (guard (any (same_provider preference.provider) config.ports) invalid_configuration)
    expires_at ← iso rt (now + 86_400_000)
    reserved_at ← iso rt now
    let request = request_of c destination expires_at reserved_at
    reserved ← calling (reserving request) (host.reserve request)
    dispatch_reserved now destination reserved
