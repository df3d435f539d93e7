-- ===== src/Delivery/Tokens.antt =====
-- packages/delivery/src/service.ts: the token of an e-mail link, a payload and its signature.
pub mod Lasting
use reflo_learning.Prelude.{
  ℕ, String, Bool, true, false, not, ◌&&◌, ◌||◌, Option, none, some, List, [], ◌∷◌, ◌++◌, Result,
  ok, err, ◌>>=◌, ◌>>◌, throw_if, guard, ltb, ◌===◌, if◌then◌else◌, units_eq, split,
}
use reflo_learning.Delivery.Contracts.{
  email_link_contract_version, authorization_denied, delivery_expired, invalid_configuration,
  invalid_signature, KnowledgeAuthorizationContext, DemoDeliveryDestination, ReservedDelivery,
}
use reflo_learning.Delivery.Rules.{
  Throws, EmailTokenClaims, ParsedClaims, Runtime, Config, parse_timestamp,
}

unfoldable pub sign : Runtime → Config → List ℕ → Throws (List ℕ)
sign rt config payload = elim config.email_link_signing_key [
  | none ↦ err invalid_configuration
  | some key ↦ ok (rt.hmac key payload)
]

abbrev pub claims_of : Runtime → ReservedDelivery → DemoDeliveryDestination → EmailTokenClaims
claims_of rt delivery destination = record {
  channel_identity_id = destination.channel_identity_id;
  delivery_id = delivery.delivery_id;
  expires_at = delivery.expires_at;
  owner_scope_id = destination.authorization.owner_scope_id;
  token_id = rt.token_id delivery.delivery_id;
  user_id = destination.authorization.actor_id;
  version = email_link_contract_version;
}

unfoldable pub email_token :
    Runtime → Config → ReservedDelivery → DemoDeliveryDestination → Throws (List ℕ)
email_token rt config delivery destination = do
  let payload = rt.encode_claims (claims_of rt delivery destination)
  signature ← sign rt config payload
  ok (payload ++ (b'.' ∷ signature))

abbrev pub or_forged : {A : Type 0} → Option A → Throws A
or_forged none = err invalid_signature
or_forged (some a) = ok a

-- The claims that pass `validEmailClaims`.
unfoldable pub valid_email_claims : ParsedClaims → Throws EmailTokenClaims
valid_email_claims p = do
  version ← or_forged p.version
  guard (version === email_link_contract_version) invalid_signature
  channel_identity_id ← or_forged p.channel_identity_id
  delivery_id ← or_forged p.delivery_id
  expires_at ← or_forged p.expires_at
  owner_scope_id ← or_forged p.owner_scope_id
  token_id ← or_forged p.token_id
  user_id ← or_forged p.user_id
  ok (record {
    channel_identity_id = channel_identity_id;
    delivery_id = delivery_id;
    expires_at = expires_at;
    owner_scope_id = owner_scope_id;
    token_id = token_id;
    user_id = user_id;
    version = version;
  })

-- Two parts, as `const [payload, signature, extra] = token.split(".")` wants them.
unfoldable pub two_parts : List (List ℕ) → Throws (List ℕ × List ℕ)
two_parts (payload ∷ signature ∷ []) = ok (payload, signature)
two_parts _ = err invalid_signature

unfoldable pub verify_email_token :
    Runtime → Config → (token : List ℕ) → (now : String) → Throws EmailTokenClaims
verify_email_token rt config token now = do
  parts ← two_parts (split b'.' token)
  expected ← sign rt config parts.0
  guard (units_eq expected parts.1) invalid_signature
  parsed ← or_forged (rt.decode_claims parts.0)
  claims ← valid_email_claims parsed
  expires_at ← parse_timestamp rt claims.expires_at
  at ← parse_timestamp rt now
  throw_if (ltb expires_at at) delivery_expired
  ok claims

unfoldable pub assert_claim_authorization :
    EmailTokenClaims → KnowledgeAuthorizationContext → Throws (Unit {0})
assert_claim_authorization claims a =
    throw_if
      (not (claims.owner_scope_id === a.owner_scope_id) || not (claims.user_id === a.actor_id))
      authorization_denied
