-- ===== src/Knowledge.antt =====
-- packages/knowledge-model: the evidence of the learner's attempts, and the replay that turns it
-- into a mastery estimate.
pub mod Contracts
pub mod Evidence
pub mod Replay
mod Tests
