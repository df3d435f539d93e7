-- ===== src/Api.antt =====
-- apps/api: the relay of the outbox.
pub mod Outbox
mod Tests
