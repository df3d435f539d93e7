-- ===== src/Delivery/Dispatch/Accounts.antt =====
-- packages/delivery/src/service.ts: the calls of `dispatch` and its answer, case by case.
use reflo_learning.Prelude.{
  ◌≡◌, ◌⊎◌, String, Bool, true, Option, none, some, List, [], ◌∷◌, ◌++◌, Result, ok, err, All,
  if◌then◌else◌,
}
use reflo_learning.Delivery.Contracts.{
  DeliveryErrorCode, dispatch_ambiguous, dispatch_failed, ReservedDelivery, DeliveryMessage,
  created, replayed, DeliveryDispatchResult,
}
use reflo_learning.Delivery.Rules.{Runtime, Config}
use reflo_learning.Delivery.Dispatch.{
  Thrown, delivery_error, Host, Call, claiming, sending, submitting, failing, code_of, is_ambiguous,
  public_delivery,
}
use reflo_learning.Delivery.Dispatch.Quiet.{IsQuiet, Quiet}

abbrev pub Answer : Type 0
Answer = Result Thrown (Option DeliveryDispatchResult)

abbrev pub IsOld : Answer → Type 0
IsOld (err e) = Unit
IsOld (ok none) = Unit
IsOld (ok (some d)) = d.status ≡ replayed

-- What a failure is answered by, or the error of the call that marks it.
abbrev pub IsFailure : Host → Bool → DeliveryErrorCode → Answer → Type 0
IsFailure host ambiguous code r =
    (r ≡ err (delivery_error (if ambiguous then dispatch_ambiguous else dispatch_failed)))
    ⊎ ((e : Thrown) × (host.mark_failed ambiguous code ≡ err e) × (r ≡ err e))

-- The calls of a dispatch, and its answer.
pub data IsAccounted (host : Host) : Answer → List Call → Type 0 where
  unsent : (r : Answer) (calls : List Call) → All IsQuiet calls → IsOld r → IsAccounted host r calls
  -- The port took the message, and that is kept.
  taken :
      (before : List Call) (lease : String) (m : DeliveryMessage) (id : String)
      (d : ReservedDelivery)
      → All IsQuiet before
      → host.claim_dispatch lease ≡ ok true
      → host.send m ≡ ok id
      → host.mark_submitted id ≡ ok d
      → IsAccounted host
          (ok (some (record { delivery = public_delivery d; status = created })))
          ((before ++ (claiming lease ∷ [])) ++ (sending m ∷ []) ++ (submitting id ∷ []))
  -- The port took the message, and that could not be kept.
  unsure :
      (before : List Call) (lease : String) (m : DeliveryMessage) (id : String)
      (code : DeliveryErrorCode) (r : Answer)
      → All IsQuiet before
      → host.claim_dispatch lease ≡ ok true
      → host.send m ≡ ok id
      → IsFailure host true code r
      → IsAccounted host r (
          (before ++ (claiming lease ∷ []))
          ++ (sending m ∷ [])
          ++ (submitting id ∷ [])
          ++ (failing true code ∷ []))
  -- The port threw: it may have taken the message only if it says so.
  thrown :
      (before : List Call) (lease : String) (m : DeliveryMessage) (e : Thrown) (r : Answer)
      → All IsQuiet before
      → host.claim_dispatch lease ≡ ok true
      → host.send m ≡ err e
      → IsFailure host (is_ambiguous e) (code_of e) r
      → IsAccounted host r (
          (before ++ (claiming lease ∷ []))
          ++ (sending m ∷ [])
          ++ (failing (is_ambiguous e) (code_of e) ∷ []))

module _ (rt : Runtime) (config : Config) (host : Host) where
  abbrev Accounted : Answer × List Call → Type 0
  Accounted (r, calls) = IsAccounted host r calls

  -- What `mark_dispatch` leaves, once the message was sent under a claim.
  module _ (before : List Call) (lease : String) (m : DeliveryMessage) (quiet : All IsQuiet before)
      (claimed : host.claim_dispatch lease ≡ ok true) where
    abbrev sent_calls : List Call
    sent_calls = (before ++ (claiming lease ∷ [])) ++ (sending m ∷ [])
