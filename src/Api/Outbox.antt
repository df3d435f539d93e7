-- ===== src/Api/Outbox.antt =====
-- apps/api/src/outbox-relay.ts: `OutboxRelay.runOnce`. The messages of a batch are handled at the same
-- time, and the counters are shared; between two `await`s a message's handler runs alone. What the
-- broker and the repository answer are events. An error of the repository or of the validation
-- rejects the whole call, and is not an event.
pub mod Counters
use reflo_learning.Prelude.{
  ℕ, suc, ◌+◌, ◌≡◌, Bool, true, false, ◌||◌, Option, none, some, List, [], ◌∷◌, ◌++◌, Number,
  natural, other, leb, ◌&&◌, replicate, if◌then◌else◌, length, all,
}

-- `RocketMqFailureClass` of packages/db/src/rocketmq-repository.ts.
pub data RocketMqFailureClass : Type 0 where
  broker_unavailable invalid_receipt publication_timeout : RocketMqFailureClass
  publisher_shutdown throttled unknown_transient : RocketMqFailureClass

-- What `publish` throws: a `RocketMqPublishingError`, or something else.
pub data PublishingError : Type 0 where
  publishing_error : RocketMqFailureClass → PublishingError
  foreign : PublishingError

-- `failureClasses`, where a class that is missing counts 0.
pub record FailureClasses : Type 0 where
  pub broker_unavailable_count : ℕ
  pub invalid_receipt_count : ℕ
  pub publication_timeout_count : ℕ
  pub publisher_shutdown_count : ℕ
  pub throttled_count : ℕ
  pub unknown_transient_count : ℕ

-- The variables of `runOnce`.
pub record Counts : Type 0 where
  pub ambiguous : ℕ
  pub failure_classes : FailureClasses
  pub published : ℕ
  pub released : ℕ

-- Where the handler of a message waits.
pub data Stage : Type 0 where
  publishing releasing marking done : Stage

pub data Event : Type 0 where
  accepted : Event
  failed : PublishingError → Event
  released_as marked_as : Bool → Event

-- `input.batchSize` of the constructor, or its error.
unfoldable pub batch_size : Number → Option ℕ
batch_size other = none
batch_size (natural n) = if leb 1 n && leb n 25 then some n else none

unfoldable pub class_of : PublishingError → RocketMqFailureClass
class_of (publishing_error c) = c
class_of foreign = unknown_transient

unfoldable pub is_ambiguous : RocketMqFailureClass → Bool
is_ambiguous publication_timeout = true
is_ambiguous invalid_receipt = true
is_ambiguous unknown_transient = true
is_ambiguous _ = false

unfoldable pub count_failure : RocketMqFailureClass → FailureClasses → FailureClasses
count_failure broker_unavailable f = record f {
  broker_unavailable_count = suc f.broker_unavailable_count;
}
count_failure invalid_receipt f = record f { invalid_receipt_count = suc f.invalid_receipt_count }
count_failure publication_timeout f = record f {
  publication_timeout_count = suc f.publication_timeout_count;
}
count_failure publisher_shutdown f = record f {
  publisher_shutdown_count = suc f.publisher_shutdown_count;
}
count_failure throttled f = record f { throttled_count = suc f.throttled_count }
count_failure unknown_transient f = record f {
  unknown_transient_count = suc f.unknown_transient_count;
}

-- The part of a handler that runs when what it waits for is there.
unfoldable pub advance : Stage → Event → Counts → Option (Stage × Counts)
advance publishing accepted c = some (marking, c)
advance publishing (failed e) c =
    let class = class_of e in
    some (
      releasing,
      record c {
        failure_classes = count_failure class c.failure_classes;
        ambiguous = if is_ambiguous class then suc c.ambiguous else c.ambiguous;
      },
    )
advance releasing (released_as true) c = some (done, record c { released = suc c.released })
advance releasing (released_as false) c = some (done, c)
advance marking (marked_as true) c = some (done, record c { published = suc c.published })
advance marking (marked_as false) c = some (done, record c { ambiguous = suc c.ambiguous })
advance _ _ c = none

abbrev pub no_counts : Counts
no_counts = record {
  ambiguous = 0;
  failure_classes = record {
    broker_unavailable_count = 0;
    invalid_receipt_count = 0;
    publication_timeout_count = 0;
    publisher_shutdown_count = 0;
    throttled_count = 0;
    unknown_transient_count = 0;
  };
  published = 0;
  released = 0;
}

-- A call for `claimed` messages, after some events in any order.
pub data Runs (claimed : ℕ) : List Stage → Counts → Type 0 where
  start : Runs claimed (replicate claimed publishing) no_counts
  event :
      (before after : List Stage) (s : Stage) (e : Event) {s' : Stage} (c : Counts) {c' : Counts}
      → Runs claimed (before ++ (s ∷ after)) c
      → advance s e c ≡ some (s', c')
      → Runs claimed (before ++ (s' ∷ after)) c'
