-- ===== src/Delivery/Rules.antt =====
-- packages/delivery/src/service.ts: the checks of texts, preferences and destinations, and the service's
-- configuration. `Date.parse`, `toISOString`, time zones, the HMAC, base64url, JSON and
-- `encodeURIComponent` are parameters.
use reflo_learning.Prelude.{
  ℕ, String, Bool, true, false, ◌&&◌, ◌||◌, Option, none, some, List, [], ◌∷◌, Result, ok, err,
  ◌>>=◌, ◌>>◌, throw_if, guard, length, any, find, filter_map, ltb, leb, ◌==◌, ◌===◌, if◌then◌else◌,
  units, is_digit,
}
use reflo_learning.Delivery.Contracts.{
  DeliveryErrorCode, authorization_denied, invalid_input, DemoDeliveryProvider, email, telegram,
  KnowledgeAuthorizationContext, DeliveryPreferenceSettings, DemoDeliveryDestination,
}

abbrev pub Throws : Type 0 → Type 0
Throws A = Result DeliveryErrorCode A

pub record EmailTokenClaims : Type 0 where
  pub channel_identity_id : String
  pub delivery_id : String
  pub expires_at : String
  pub owner_scope_id : String
  pub token_id : String
  pub user_id : String
  pub version : String

-- What `JSON.parse` gives, if it is an object: a key without a text is `none`.
pub record ParsedClaims : Type 0 where
  pub channel_identity_id : Option String
  pub delivery_id : Option String
  pub expires_at : Option String
  pub owner_scope_id : Option String
  pub token_id : Option String
  pub user_id : Option String
  pub version : Option String

-- The runtime. A time is the number of milliseconds since the earliest that a date can have.
pub record Runtime : Type 0 where
  pub parse_date : String → Option ℕ
  pub to_iso : ℕ → Option String
  pub is_time_zone : String → Bool
  pub hmac : (key payload : List ℕ) → List ℕ
  pub encode_claims : EmailTokenClaims → List ℕ
  pub decode_claims : List ℕ → Option ParsedClaims
  pub token_id : (delivery_id : String) → String
  pub digest : List ℕ → String
  pub encode_component : List ℕ → List ℕ

pub record Config : Type 0 where
  pub destinations : List DemoDeliveryDestination
  pub default_preference : DeliveryPreferenceSettings
  pub email_link_origin : Option String
  pub email_link_signing_key : Option (List ℕ)
  pub ports : List DemoDeliveryProvider

ends_with_z : List ℕ → Bool
ends_with_z [] = false
ends_with_z (c ∷ []) = c == b'Z'
ends_with_z (c ∷ d ∷ cs) = ends_with_z (d ∷ cs)

unfoldable pub parse_timestamp : Runtime → String → Throws ℕ
unfolding ends_with_z
parse_timestamp rt value = elim (rt.parse_date value) [
  | none ↦ err invalid_input
  | some t ↦ if ends_with_z (units value) then ok t else err invalid_input
]

-- A character's `charCodeAt(0)` is its code point here; no second unit of a pair is a control character.
unfoldable pub validate_identity : String → Throws (Unit {0})
validate_identity value =
    let cs = units value in
    throw_if (ltb (length cs) 1 || ltb 200 (length cs) || any (λ c. leb c 31 || c == 127) cs)
      invalid_input

-- `/^(?:[01]\d|2[0-3]):[0-5]\d$/`
unfoldable pub is_local_time : List ℕ → Bool
is_local_time (h ∷ i ∷ colon ∷ m ∷ n ∷ []) =
    (((h == b'0' || h == b'1') && is_digit i) || (h == b'2' && leb b'0' i && leb i b'3'))
    && colon == b':'
    && leb b'0' m
    && leb m b'5'
    && is_digit n
is_local_time _ = false

unfoldable pub validate_preference : Runtime → DeliveryPreferenceSettings → Throws (Unit {0})
validate_preference rt p = do
  guard (is_local_time (units p.chosen_local_time)) invalid_input
  guard (rt.is_time_zone p.time_zone) invalid_input

abbrev pub same_provider : DemoDeliveryProvider → DemoDeliveryProvider → Bool
same_provider email email = true
same_provider telegram telegram = true
same_provider _ _ = false

abbrev pub is_owned_by : KnowledgeAuthorizationContext → DemoDeliveryDestination → Bool
is_owned_by a d =
    d.authorization.actor_id === a.actor_id && d.authorization.owner_scope_id === a.owner_scope_id

unfoldable pub destination_for :
    Config → KnowledgeAuthorizationContext → DemoDeliveryProvider → Throws DemoDeliveryDestination
destination_for config a provider =
    elim (find (λ d. same_provider d.provider provider && is_owned_by a d) config.destinations) [
      | none ↦ err authorization_denied
      | some d ↦ ok d
    ]

unfoldable pub available_providers :
    Config → KnowledgeAuthorizationContext → List DemoDeliveryProvider
available_providers config a =
    filter_map (λ (d : DemoDeliveryDestination). if is_owned_by a d then some d.provider else none)
      config.destinations

-- `??`
abbrev pub or_default : {A : Type 0} → A → Option A → A
or_default a none = a
or_default a (some b) = b

-- What `loadPreference` gives, or the default, if it is valid and there is a destination for it.
unfoldable pub preference_of :
    Runtime
    → Config
    → KnowledgeAuthorizationContext
    → Option DeliveryPreferenceSettings
    → Throws DeliveryPreferenceSettings
preference_of rt config a persisted = do
  let preference = or_default config.default_preference persisted
  validate_preference rt preference
  destination ← destination_for config a preference.provider
  ok preference
