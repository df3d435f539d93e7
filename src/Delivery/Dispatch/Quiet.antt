-- ===== src/Delivery/Dispatch/Quiet.antt =====
-- packages/delivery/src/service.ts: the parts of `dispatch` that send nothing.
use reflo_learning.Prelude.{
  ℕ, inl, inr, String, none, some, List, [], ◌∷◌, ◌++◌, Result, ok, err, Result-cases, Option-cases,
  All, All-append,
}
use reflo_learning.Prelude.Traced.{calling}
use reflo_learning.Delivery.Contracts.{
  DemoDeliveryProvider, email, telegram, DemoDeliveryDestination, ReservedDelivery,
}
use reflo_learning.Delivery.Rules.{Throws, Runtime, Config}
use reflo_learning.Delivery.Tokens.{email_token}
use reflo_learning.Delivery.Dispatch.{
  Thrown, foreign, Host, Call, binding, claiming, sending, submitting, failing, Action, lift, iso,
  email_link_of, link_for,
}

-- Nothing is sent, nor marked.
abbrev pub IsQuiet : Call → Type 0
IsQuiet (sending m) = ⊥
IsQuiet (submitting id) = ⊥
IsQuiet (failing b code) = ⊥
IsQuiet _ = Unit

-- An action that sends nothing and marks nothing.
abbrev pub Quiet : {A : Type 0} → Action A → Type 0
Quiet action = (calls : List Call) → All IsQuiet calls → All IsQuiet (action calls).1

pub lift-Quiet : {A : Type 0} (r : Throws A) → Quiet (lift r)
lift-Quiet (ok a) calls quiet = quiet
lift-Quiet (err code) calls quiet = quiet

pub iso-Quiet : (rt : Runtime) (t : ℕ) → Quiet (iso rt t)
iso-Quiet rt t calls quiet =
    elim (rt.to_iso t)
      as (λ o.
        All IsQuiet
          (elim o as (λ x. Result Thrown String × List Call) [
            | none ↦ (err foreign, calls)
            | some text ↦ (ok text, calls)
          ]).1) [ none ↦ quiet | some text ↦ quiet ]

pub calling-Quiet :
    {A : Type 0} (call : Call) (r : Result Thrown A) → IsQuiet call → Quiet (calling call r)
calling-Quiet call r q calls quiet = All-append IsQuiet calls (call ∷ []) quiet (q, tt)

pub IsQuiet-claim :
    (calls : List Call) (lease : String)
    → All IsQuiet calls
    → All IsQuiet (calls ++ (claiming lease ∷ []))
IsQuiet-claim calls lease quiet = All-append IsQuiet calls (claiming lease ∷ []) quiet (tt, tt)

module _ (rt : Runtime) (config : Config) (host : Host) where
  email_link_of-Quiet :
      (d : ReservedDelivery) (destination : DemoDeliveryDestination)
      → Quiet (email_link_of rt config host d destination)
  unfolding email_link_of
  email_link_of-Quiet d destination calls quiet =
      elim (Result-cases (email_token rt config d destination)) [
        | inr (code, unsigned) ↦ rw unsigned quiet
        | inl (token, signed) ↦ elim (Option-cases config.email_link_origin) [
          | inl nowhere ↦ rw (signed, nowhere) quiet
          | inr (origin, somewhere) ↦
              let quiet' =
                All-append IsQuiet calls (binding (rt.digest token) ∷ []) quiet (tt, tt) in
              elim (Result-cases (host.bind_email_token (rt.digest token))) [
                | inl (u, bound) ↦ rw (signed, somewhere, bound) quiet'
                | inr (e, broken) ↦ rw (signed, somewhere, broken) quiet'
              ]
        ]
      ]

  pub link_for-Quiet :
      (d : ReservedDelivery) (destination : DemoDeliveryDestination)
      (provider : DemoDeliveryProvider)
      → Quiet (link_for rt config host d destination provider)
  link_for-Quiet d destination telegram calls quiet = quiet
  link_for-Quiet d destination email calls quiet = email_link_of-Quiet d destination calls quiet
