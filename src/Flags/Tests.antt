-- ===== src/Flags/Tests.antt =====
-- packages/feature-flags: the evaluator and the ceiling on concrete inputs.
use mathlib.Core.List.{Memᴰ}
use mathlib.Core.Bool.{decide}
use reflo_learning.Prelude.{
  ◌≡◌, refl, true, some, none, [], ◌∷◌, ◌<◌, ◌+◌, units, units_eq, trim, split, map, ◌↔◌, natural,
  ok, All, String, false,
}
use reflo_learning.Flags.Registry.{
  P1FlagKey, P1FlagKey-discrete, billing_stripe, auth_oauth, p1_flag_registry, as_p1_flag_key,
  key_text,
}
use reflo_learning.Flags.Evaluator.{
  CacheKey-discrete, DeploymentCeiling, ceiling_valid, answered, Answers, Pending, no_operation,
  is_nil, Snapshot, Snapshots, begin, begin_key, complete, check_ceiling, allows, consult,
  get_operation_policy, decide_enabled, prerequisite_valid_until, valid_until_of, is_current,
  operation_valid_until, requested_revision, admission, has_text, store, settled, awaiting, enabled,
}
use reflo_learning.Flags.Evaluator.Gates.{IsOpen, decide_enabled-IsOpen}
use reflo_learning.Flags.Evaluator.Freshness.{Reach, start, began, completed, IsEarned, begin-fresh}
use reflo_learning.Flags.Evaluator.Ceiling.{
  parse_deployment_ceiling, IsKeyText, keys_of, add_key, key_set,
  parse_deployment_ceiling-valid_iff,
}

abbrev only_stripe : DeploymentCeiling
only_stripe = record { allowed = billing_stripe ∷ []; status = ceiling_valid }

abbrev stripe_pending : Pending
stripe_pending = record {
  key = billing_stripe;
  kind = none;
  operation_policy = no_operation;
  evaluated_at_ms = 1_000;
}

-- The sources switch the flag on at revision 7, and its prerequisites are good until 9,000.
abbrev yes_until_9000 : Answers
yes_until_9000 = record {
  requested = answered (some (record { requested_enabled = true; revision = natural 7 }));
  verdict = λ policy. answered (
      some (record {
        evidence_refs = "approval-41" ∷ [];
        policy_id = policy.id;
        policy_version = policy.version;
        satisfied = true;
        valid_until_ms = natural 9_000;
      }));
  admits = answered true;
  completed_at_ms = 1_200;
}

abbrev stripe_snapshot : Snapshot
stripe_snapshot = record { evaluated_at_ms = 1_200; requested_revision = 7; expires_at_ms = 9_000 }

stripe_decided : decide_enabled 30_000 stripe_pending yes_until_9000 ≡ ok stripe_snapshot
unfolding decide_enabled prerequisite_valid_until valid_until_of is_current operation_valid_until
    requested_revision admission has_text p1_flag_registry units trim
stripe_decided = refl

decide_enabled-IsOpen_example : IsOpen 30_000 stripe_pending yes_until_9000 stripe_snapshot
decide_enabled-IsOpen_example =
    decide_enabled-IsOpen 30_000 stripe_pending yes_until_9000 stripe_decided

abbrev empty : Snapshots
empty = λ ck. none

abbrev after_begin : Snapshots
after_begin = (begin only_stripe empty (key_text billing_stripe) none 1_000).1

abbrev after_complete : Snapshots
after_complete = (complete 30_000 stripe_pending yes_until_9000 after_begin).1

stripe_begins :
    begin only_stripe empty (key_text billing_stripe) none 1_000
    ≡ (awaiting stripe_pending, after_begin)
unfolding decide P1FlagKey-discrete CacheKey-discrete begin begin_key as_p1_flag_key check_ceiling
    allows get_operation_policy consult units units_eq p1_flag_registry
stripe_begins = refl

-- One evaluation has ended, and its snapshot is in the cache.
stripe_reached : Reach 30_000 only_stripe after_complete (stripe_pending ∷ [])
stripe_reached =
    completed (began start (key_text billing_stripe) none 1_000 stripe_pending stripe_begins)
      stripe_pending yes_until_9000 (Memᴰ.head refl) refl

stripe_hit :
    (begin only_stripe after_complete (key_text billing_stripe) none 5_000).0
    ≡ settled (enabled 1_200 7)
unfolding decide P1FlagKey-discrete CacheKey-discrete begin begin_key as_p1_flag_key check_ceiling
    allows get_operation_policy consult units units_eq p1_flag_registry complete decide_enabled
    prerequisite_valid_until valid_until_of is_current operation_valid_until requested_revision
    admission has_text trim store
stripe_hit = refl

begin-fresh_example :
    (s : Snapshot) × (e : IsEarned 30_000 only_stripe
      (record { key = billing_stripe; kind = none })
      s)
    × (s.evaluated_at_ms ≡ 1_200)
    × (s.requested_revision ≡ 7)
    × (5_000 < 1_200 + 30_000)
    × (5_000 < e.open_gates.base_until)
begin-fresh_example =
    begin-fresh 30_000 only_stripe stripe_reached billing_stripe none 5_000 stripe_hit

not_blank : is_nil (trim (units " p1.auth.oauth , p1.billing.stripe,p1.auth.oauth")) ≡ false
unfolding units trim
not_blank = refl

-- A key that is named twice is allowed once.
named_twice :
    parse_deployment_ceiling (some " p1.auth.oauth , p1.billing.stripe,p1.auth.oauth")
    ≡ record { allowed = auth_oauth ∷ billing_stripe ∷ []; status = ceiling_valid }
unfolding parse_deployment_ceiling keys_of key_set add_key allows as_p1_flag_key P1FlagKey-discrete
    decide units units_eq trim split
named_twice = refl

abbrev two_keys : String
two_keys = " p1.auth.oauth , p1.billing.stripe,p1.auth.oauth"

parse_deployment_ceiling-valid_iff_example :
    (((parse_deployment_ceiling (some two_keys)).status ≡ ceiling_valid)
      ↔ All IsKeyText (map trim (split b',' (units two_keys))))
    × ((key : P1FlagKey)
        → Memᴰ key (parse_deployment_ceiling (some two_keys)).allowed ↔ (
            ((parse_deployment_ceiling (some two_keys)).status ≡ ceiling_valid)
            × Memᴰ (units (key_text key)) (map trim (split b',' (units two_keys)))))
parse_deployment_ceiling-valid_iff_example = parse_deployment_ceiling-valid_iff two_keys not_blank
