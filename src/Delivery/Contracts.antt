-- ===== src/Delivery/Contracts.antt =====
-- packages/delivery/src/contracts.ts and errors.ts. A time is a text, as in the source; texts that the
-- code looks into are lists of code units where they are computed.
use reflo_learning.Prelude.{ℕ, String, Option, List}

abbrev pub demo_delivery_contract_version : String
demo_delivery_contract_version = "demo-delivery-v1"

abbrev pub email_link_contract_version : String
email_link_contract_version = "demo-email-link-v1"

pub data DeliveryErrorCode : Type 0 where
  authorization_denied conflicting_duplicate delivery_expired : DeliveryErrorCode
  dispatch_ambiguous dispatch_failed invalid_configuration invalid_input : DeliveryErrorCode
  invalid_signature link_redeemed not_found : DeliveryErrorCode

pub data DemoDeliveryProvider : Type 0 where
  email telegram : DemoDeliveryProvider

pub record KnowledgeAuthorizationContext : Type 0 where
  pub actor_id : String
  pub authorization_id : String
  pub owner_scope_id : String

pub record DeliveryPreferenceSettings : Type 0 where
  pub chosen_local_time : String
  pub provider : DemoDeliveryProvider
  pub time_zone : String

pub record DeliveryPreferenceView : Type 0 where
  pub preference : DeliveryPreferenceSettings
  pub available_providers : List DemoDeliveryProvider

pub record DemoDeliveryDestination : Type 0 where
  pub authorization : KnowledgeAuthorizationContext
  pub channel_identity_id : String
  pub provider : DemoDeliveryProvider
  pub recipient : String
  pub recipient_lookup_digest : String
  pub telegram_webhook_secret : Option String

pub record DeliveryQuestion : Type 0 where
  pub concept_id : String
  pub delivery_item_id : String
  pub prompt : String
  pub quiz_item_id : String
  pub response_options : List String

pub record ReservedDeliveryItem : Type 0 where
  pub shown : DeliveryQuestion
  pub keyed_answer : String
  pub review_schedule_id : String
  pub rubric_id : String
  pub rubric_version : String

pub data DeliveryStatus : Type 0 where
  cancelled delivered expired failed pending processing submitted : DeliveryStatus

-- `Item` is an item with its keyed answer, or what is shown of it.
pub record DeliveryOf (Item : Type 0) : Type 0 where
  pub delivery_id : String
  pub expires_at : String
  pub items : List Item
  pub provider : DemoDeliveryProvider
  pub provider_message_id : Option String
  pub status : DeliveryStatus

abbrev pub ReservedDelivery : Type 0
ReservedDelivery = DeliveryOf ReservedDeliveryItem

pub record DeliveryMessage : Type 0 where
  pub delivery_id : String
  pub email_link : Option (List ℕ)
  pub expires_at : String
  pub provider : DemoDeliveryProvider
  pub questions : List DeliveryQuestion
  pub recipient : String

pub data DispatchStatus : Type 0 where
  created replayed : DispatchStatus

pub record DeliveryDispatchResult : Type 0 where
  pub delivery : DeliveryOf DeliveryQuestion
  pub status : DispatchStatus

pub record DeliveryAnswerInput : Type 0 where
  pub answer : String
  pub delivery_item_id : String

pub record EmailQuizPreview : Type 0 where
  pub delivery_id : String
  pub expires_at : String
  pub questions : List DeliveryQuestion
