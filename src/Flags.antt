-- ===== src/Flags.antt =====
-- packages/feature-flags: the registry of flags, and the evaluator that decides whether a flag is on.
pub mod Registry
pub mod Evaluator
mod Tests
