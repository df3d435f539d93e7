-- ===== src/Delivery/Tokens/Lasting.antt =====
-- packages/delivery/src/service.ts: e-mail tokens, made and verified.
use mathlib.Core.Path.{subst}
use reflo_learning.Prelude.{
  ◌>>◌, ℕ, ◌≡◌, refl, ap, inl, inr, String, some, List, [], ◌∷◌, ◌++◌, ok, err, ok-injective,
  throw_if, ltb, if◌then◌else◌, split, HasNo, split-HasNo, split-first, ===_iff, units_eq_refl,
  arith, Option-cases, Result-cases,
}
use reflo_learning.Delivery.Contracts.{
  delivery_expired, email_link_contract_version, DemoDeliveryDestination, ReservedDelivery,
}
use reflo_learning.Delivery.Rules.{EmailTokenClaims, ParsedClaims, Runtime, Config, parse_timestamp}
use reflo_learning.Delivery.Tokens.{
  sign, claims_of, email_token, valid_email_claims, two_parts, verify_email_token,
}

abbrev pub all_texts : EmailTokenClaims → ParsedClaims
all_texts c = record {
  channel_identity_id = some c.channel_identity_id;
  delivery_id = some c.delivery_id;
  expires_at = some c.expires_at;
  owner_scope_id = some c.owner_scope_id;
  token_id = some c.token_id;
  user_id = some c.user_id;
  version = some c.version;
}

-- What base64url, JSON and the HMAC are known for: the payload of these claims and all signatures have no
-- point, and the payload is read as what was written.
pub record IsCodec (rt : Runtime) (c : EmailTokenClaims) : Type 0 where
  pub payload_has_no_point : HasNo b'.' (rt.encode_claims c)
  pub signature_has_no_point : (key payload : List ℕ) → HasNo b'.' (rt.hmac key payload)
  pub reads_back : rt.decode_claims (rt.encode_claims c) ≡ some (all_texts c)

module _ (rt : Runtime) (config : Config) where
  sign-HasNo :
      ((key payload : List ℕ) → HasNo b'.' (rt.hmac key payload))
      → (payload : List ℕ) {signature : List ℕ} → sign rt config payload ≡ ok signature
      → HasNo b'.' signature
  unfolding sign
  sign-HasNo no_point payload h = elim (Option-cases config.email_link_signing_key) [
    | inl keyless ↦ absurd (ground arith)
    | inr (key, known) ↦ subst (HasNo b'.') (ok-injective (rw known at h)) (no_point key payload)
  ]

  expiry_lem :
      (c : EmailTokenClaims) (expires at : ℕ)
      → (throw_if (ltb expires at) delivery_expired >> ok c)
        ≡ (if ltb expires at then err delivery_expired else ok c)
  expiry_lem c expires at = ground arith

  valid_email_claims_lem :
      (c : EmailTokenClaims)
      → c.version ≡ email_link_contract_version
      → valid_email_claims (all_texts c) ≡ ok c
  unfolding valid_email_claims
  valid_email_claims_lem c v = rw ((===_iff c.version email_link_contract_version).1 v) refl

  -- A token that was made for a delivery is read back as its claims, until it expires; then it is
  -- refused as expired. The payload of the claims and signatures have no point, and the payload is
  -- read as what was written.
  pub verify_email_token-email_token :
      (delivery : ReservedDelivery) (destination : DemoDeliveryDestination) (token : List ℕ)
      (now : String) (expires at : ℕ)
      → IsCodec rt (claims_of rt delivery destination)
      → email_token rt config delivery destination ≡ ok token
      → parse_timestamp rt delivery.expires_at ≡ ok expires
      → parse_timestamp rt now ≡ ok at
      → verify_email_token rt config token now
        ≡ (if ltb expires at then err delivery_expired else ok (claims_of rt delivery destination))
  unfolding email_token verify_email_token two_parts
  verify_email_token-email_token delivery destination token now expires at codec made expiry time =
      let c = claims_of rt delivery destination in
      let payload = rt.encode_claims c in
      elim (Result-cases (sign rt config payload)) [
        | inr (code, keyless) ↦ absurd (ground arith)
        | inl (signature, signed) ↦
            let e : token ≡ payload ++ (b'.' ∷ signature) = ground arith in
            let parts : split b'.' token ≡ payload ∷ signature ∷ [] =
              rw (e, split-first b'.' payload signature (codec.payload_has_no_point))
                (ap (λ x. payload ∷ x)
                  (split-HasNo b'.' signature
                    (sign-HasNo codec.signature_has_no_point payload signed))) in
            rw
              (
                parts,
                signed,
                units_eq_refl signature,
                codec.reads_back,
                valid_email_claims_lem c refl,
                expiry,
                time,
              )
              (expiry_lem c expires at)
      ]
