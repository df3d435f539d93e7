-- ===== src/Delivery/Answers/Genuine.antt =====
-- packages/delivery/src/service.ts: the tokens of e-mail links that are let in, in words of their own.
use mathlib.Core.Path.{subst}
use mathlib.Core.List.{Memᴰ}
use reflo_learning.Prelude.{
  ℕ, ◌≤◌, ◌≡◌, refl, ◌∙◌, ap, inl, inr, String, false, Option, none, some, List, [], ◌∷◌, ok,
  Result-cases, Bool-cases, bind_ok, ok-injective, throw_if, throw_if-ok, guard, guard-ok, ltb,
  ◌===◌, ===_iff, units_eq, eq_of_units_eq, split, arith, ◌&&◌, sym, Bool, true, Option-cases, find,
  find-ok,
}
use reflo_learning.Delivery.Contracts.{
  delivery_expired, invalid_signature, email, KnowledgeAuthorizationContext,
  DemoDeliveryDestination, telegram, email_link_contract_version, DemoDeliveryProvider,
}
use reflo_learning.Delivery.Rules.{
  EmailTokenClaims, ParsedClaims, Runtime, Config, parse_timestamp, destination_for, same_provider,
  is_owned_by,
}
use reflo_learning.Delivery.Tokens.{
  sign, two_parts, or_forged, valid_email_claims, verify_email_token, assert_claim_authorization,
}
use reflo_learning.Delivery.Tokens.Lasting.{all_texts}
use reflo_learning.Delivery.Answers.{AnswerHost, admit}

-- A token of two parts: the signature is the key's for the payload, the payload is of texts alone, in this
-- version, that name the one who shows it, and `now` is not after the time that they expire.
pub record IsGenuine (rt : Runtime) (config : Config) (token : List ℕ) (now : String)
    (a : KnowledgeAuthorizationContext) (claims : EmailTokenClaims) : Type 0 where
  payload : List ℕ
  signature : List ℕ
  key : List ℕ
  expires : ℕ
  at : ℕ
  parts : split b'.' token ≡ payload ∷ signature ∷ []
  known : config.email_link_signing_key ≡ some key
  signed : signature ≡ rt.hmac key payload
  decoded : rt.decode_claims payload ≡ some (all_texts claims)
  version : claims.version ≡ "demo-email-link-v1"
  expiry : rt.parse_date claims.expires_at ≡ some expires
  time : rt.parse_date now ≡ some at
  lasting : at ≤ expires
  owner : claims.owner_scope_id ≡ a.owner_scope_id
  user : claims.user_id ≡ a.actor_id

two_parts-ok :
    (ps : List (List ℕ)) {p : List ℕ × List ℕ} → two_parts ps ≡ ok p → ps ≡ p.0 ∷ p.1 ∷ []
unfolding two_parts
two_parts-ok [] h = absurd (cc)
two_parts-ok (x ∷ []) h = absurd (cc)
two_parts-ok (x ∷ y ∷ []) h = subst (λ q. (x ∷ y ∷ []) ≡ q.0 ∷ q.1 ∷ []) (ok-injective h) refl
two_parts-ok (x ∷ y ∷ z ∷ zs) h = absurd (cc)

or_forged-ok : {A : Type 0} (o : Option A) {v : A} → or_forged o ≡ ok v → o ≡ some v
or_forged-ok none h = absurd (cc)
or_forged-ok (some w) h = cc

-- Claims that are read are all texts, of this version.
valid_email_claims-all_texts :
    (p : ParsedClaims) {c : EmailTokenClaims}
    → valid_email_claims p ≡ ok c
    → (p ≡ all_texts c) × (c.version ≡ email_link_contract_version)
unfolding valid_email_claims
valid_email_claims-all_texts p {c} h = bind_ok (or_forged p.version) _ h λ version e₁ h₁.
    bind_ok (guard (version === email_link_contract_version) invalid_signature) _ h₁ λ u e₂ h₂.
      bind_ok (or_forged p.channel_identity_id) _ h₂ λ channel e₃ h₃.
        bind_ok (or_forged p.delivery_id) _ h₃ λ delivery e₄ h₄.
          bind_ok (or_forged p.expires_at) _ h₄ λ expires e₅ h₅.
            bind_ok (or_forged p.owner_scope_id) _ h₅ λ owner e₆ h₆.
              bind_ok (or_forged p.token_id) _ h₆ λ token e₇ h₇.
                bind_ok (or_forged p.user_id) _ h₇ λ user e₈ h₈.
                  let its : ◌≡◌ {A = EmailTokenClaims}
                      (record {
                        channel_identity_id = channel;
                        delivery_id = delivery;
                        expires_at = expires;
                        owner_scope_id = owner;
                        token_id = token;
                        user_id = user;
                        version = version;
                      })
                      c =
                    ok-injective h₈ in
                  let held =
                    (===_iff version email_link_contract_version).0
                      (guard-ok (version === email_link_contract_version) invalid_signature e₂) in
                  subst (λ x. (p ≡ all_texts x) × (x.version ≡ email_link_contract_version)) its
                    (
                      λ i. record {
                        channel_identity_id = or_forged-ok p.channel_identity_id e₃ i;
                        delivery_id = or_forged-ok p.delivery_id e₄ i;
                        expires_at = or_forged-ok p.expires_at e₅ i;
                        owner_scope_id = or_forged-ok p.owner_scope_id e₆ i;
                        token_id = or_forged-ok p.token_id e₇ i;
                        user_id = or_forged-ok p.user_id e₈ i;
                        version = or_forged-ok p.version e₁ i;
                      },
                      held,
                    )

sign-ok :
    (rt : Runtime) (config : Config) (payload : List ℕ) {signature : List ℕ}
    → sign rt config payload ≡ ok signature
    → (key : List ℕ) × (config.email_link_signing_key ≡ some key)
      × (signature ≡ rt.hmac key payload)
unfolding sign
sign-ok rt config payload h = elim (Option-cases config.email_link_signing_key) [
  | inl keyless ↦ absurd (ground arith)
  | inr (key, known) ↦ (key, known, sym (ok-injective (rw known at h)))
]

parse_timestamp-ok :
    (rt : Runtime) (text : String) {t : ℕ}
    → parse_timestamp rt text ≡ ok t
    → rt.parse_date text ≡ some t
unfolding parse_timestamp
parse_timestamp-ok rt text h = elim (Option-cases (rt.parse_date text)) [
  | inl no_date ↦ absurd (ground arith)
  | inr (t', dated) ↦ ground arith
]

-- The destination of `a` for mail.
pub record IsMailboxOf (config : Config) (a : KnowledgeAuthorizationContext)
    (d : DemoDeliveryDestination) : Type 0 where
  known : Memᴰ d config.destinations
  by_mail : d.provider ≡ email
  user : d.authorization.actor_id ≡ a.actor_id
  owner : d.authorization.owner_scope_id ≡ a.owner_scope_id

same_provider-email : (p : DemoDeliveryProvider) → same_provider p email ≡ true → p ≡ email
same_provider-email email h = refl
same_provider-email telegram h = absurd (cc)

destination_for-IsMailboxOf :
    (config : Config) (a : KnowledgeAuthorizationContext) {d : DemoDeliveryDestination}
    → destination_for config a email ≡ ok d
    → IsMailboxOf config a d
unfolding destination_for
destination_for-IsMailboxOf config a h =
    let test : DemoDeliveryDestination → Bool =
      λ d. same_provider d.provider email && is_owned_by a d in
    elim (Option-cases (find test config.destinations)) [
      | inl nobody ↦ absurd (ground arith)
      | inr (d, found) ↦
          let (member, passes) = find-ok test config.destinations found in
          subst (IsMailboxOf config a) (ok-injective (rw (found, destination_for) at h)) (record {
            known = member;
            by_mail = same_provider-email d.provider (ground arith);
            user = (===_iff d.authorization.actor_id a.actor_id).0 (ground arith);
            owner = (===_iff d.authorization.owner_scope_id a.owner_scope_id).0 (ground arith);
          })
    ]

module _ (rt : Runtime) (config : Config) (a : KnowledgeAuthorizationContext) (token : List ℕ)
    (now : String) where
  verify_email_token-ok :
      (claims : EmailTokenClaims)
      → verify_email_token rt config token now ≡ ok claims
      → claims.owner_scope_id ≡ a.owner_scope_id
      → claims.user_id ≡ a.actor_id
      → IsGenuine rt config token now a claims
  unfolding verify_email_token
  verify_email_token-ok claims h owner user =
      bind_ok (two_parts (split b'.' token)) _ h λ ps parts h₁.
        bind_ok (sign rt config ps.0) _ h₁ λ expected signed h₂.
          bind_ok (guard (units_eq expected ps.1) invalid_signature) _ h₂ λ u₃ same h₃.
            bind_ok (or_forged (rt.decode_claims ps.0)) _ h₃ λ parsed decoded h₄.
              bind_ok (valid_email_claims parsed) _ h₄ λ c claimed h₅.
                bind_ok (parse_timestamp rt c.expires_at) _ h₅ λ expires expiry h₆.
                  bind_ok (parse_timestamp rt now) _ h₆ λ at time h₇.
                    bind_ok (throw_if (ltb expires at) delivery_expired) _ h₇ λ u₈ early h₈.
                      let its : c ≡ claims = ok-injective h₈ in
                      let same_signature =
                        eq_of_units_eq expected ps.1
                          (guard-ok (units_eq expected ps.1) invalid_signature same) in
                      let (key, known, made) = sign-ok rt config ps.0 signed in
                      let (read, versioned) = valid_email_claims-all_texts parsed claimed in
                      let late : ltb expires at ≡ false =
                        throw_if-ok (ltb expires at) delivery_expired early in
                      record {
                        payload = ps.0;
                        signature = ps.1;
                        key = key;
                        known = known;
                        expires = expires;
                        at = at;
                        parts = two_parts-ok (split b'.' token) parts;
                        signed = sym same_signature ∙ made;
                        decoded =
                            or_forged-ok (rt.decode_claims ps.0) decoded
                            ∙ ap some (read ∙ ap all_texts its);
                        version = ap (λ (x : EmailTokenClaims). x.version) (sym its) ∙ versioned;
                        expiry =
                            subst
                              (λ (x : EmailTokenClaims). rt.parse_date x.expires_at ≡ some expires)
                              its (parse_timestamp-ok rt c.expires_at expiry);
                        time = parse_timestamp-ok rt now time;
                        lasting = ground arith;
                        owner = owner;
                        user = user;
                      }

  pub admit-IsGenuine :
      (claims : EmailTokenClaims) (destination : DemoDeliveryDestination) (host : AnswerHost)
      → admit rt config host a token now ≡ ok (claims, destination)
      → IsGenuine rt config token now a claims × IsMailboxOf config a destination
  unfolding admit assert_claim_authorization
  admit-IsGenuine claims destination host h =
      elim (Result-cases (verify_email_token rt config token now)) [
        | inr (code, bad) ↦ absurd (ground arith)
        | inl (c, verified) ↦
            elim (Bool-cases (c.owner_scope_id === a.owner_scope_id && c.user_id === a.actor_id)) [
              | inr other ↦ absurd (ground arith)
              | inl own ↦ elim (Result-cases (destination_for config a email)) [
                | inr (code, nowhere) ↦ absurd (ground arith)
                | inl (d, there) ↦
                    let same : ◌≡◌ {A = EmailTokenClaims × DemoDeliveryDestination} (c, d)
                        (claims, destination) =
                      ground arith in
                    let its : c ≡ claims = ap (λ p. p.0) same in
                    let place : d ≡ destination = ap (λ p. p.1) same in
                    (
                      verify_email_token-ok claims (verified ∙ ap ok its)
                          (ground (arith, ===_iff c.owner_scope_id a.owner_scope_id))
                          (ground (arith, ===_iff c.user_id a.actor_id)),
                      destination_for-IsMailboxOf config a (there ∙ ap ok place),
                    )
              ]
            ]
      ]
