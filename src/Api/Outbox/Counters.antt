-- ===== src/Api/Outbox/Counters.antt =====
-- apps/api/src/outbox-relay.ts: what the counters of `runOnce` say.
use reflo_learning.Prelude.{ℕ, ◌+◌, ◌≤◌, ◌≡◌, Option, none, some, List, [], ◌∷◌, length}
use reflo_learning.Api.Outbox.{FailureClasses, Counts, Stage, releasing, done}

-- All failures of publication, and those after which the message may have been published.
pub failures : FailureClasses → ℕ
failures f =
    f.broker_unavailable_count + f.invalid_receipt_count + f.publication_timeout_count
    + f.publisher_shutdown_count + f.throttled_count + f.unknown_transient_count

pub uncertain : FailureClasses → ℕ
uncertain f = f.invalid_receipt_count + f.publication_timeout_count + f.unknown_transient_count

abbrev failed_by : Stage → ℕ
failed_by releasing = 1
failed_by _ = 0

abbrev settled_by : Stage → ℕ
settled_by releasing = 1
settled_by done = 1
settled_by _ = 0

total : (Stage → ℕ) → List Stage → ℕ
total f [] = 0
total f (s ∷ ss) = f s + total f ss

-- What one event changes, seen from the handler that it wakes.
record Balances (s : Stage) (c : Counts) (s' : Stage) (c' : Counts) : Type 0 where
  settled :
      c'.published
        + c'.ambiguous
        + failures c'.failure_classes
        + uncertain c.failure_classes
        + settled_by s
      ≡ c.published
        + c.ambiguous
        + failures c.failure_classes
        + uncertain c'.failure_classes
        + settled_by s'
  released :
      c'.released + failed_by s' + failures c.failure_classes
      ≤ c.released + failed_by s + failures c'.failure_classes

abbrev AfterAdvance : Stage → Counts → Option (Stage × Counts) → Type 0
AfterAdvance s c none = Unit
AfterAdvance s c (some (s', c')) = Balances s c s' c'

-- What holds of the counters at every moment of a call for `claimed` messages.
record IsBalanced (claimed : ℕ) (stages : List Stage) (c : Counts) : Type 0 where
  size : length stages ≡ claimed
  settled :
      c.published + c.ambiguous + failures c.failure_classes
      ≡ uncertain c.failure_classes + total settled_by stages
  released : c.released + total failed_by stages ≤ failures c.failure_classes
