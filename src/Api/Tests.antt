-- ===== src/Api/Tests.antt =====
-- apps/api/src/outbox-relay.ts: a batch of two messages, whose handlers interleave.
use reflo_learning.Api.Outbox.{Counts}

abbrev after_failure : Counts
after_failure = record {
  ambiguous = 1;
  failure_classes = record {
    broker_unavailable_count = 0;
    invalid_receipt_count = 0;
    publication_timeout_count = 1;
    publisher_shutdown_count = 0;
    throttled_count = 0;
    unknown_transient_count = 0;
  };
  published = 0;
  released = 0;
}

abbrev after_mark : Counts
after_mark = record after_failure { published = 1 }

abbrev after_release : Counts
after_release = record after_mark { released = 1 }
