-- ===== src/Assessment.antt =====
-- packages/assessment: the selection of questions, and the grading of answers into evidence.
pub mod Contracts
pub mod Rules
pub mod Judgments
pub mod Evidence
pub mod Fallbacks
pub mod Threshold
pub mod Selection
pub mod Actions
pub mod Grading
pub mod Replacement
mod Tests
