-- ===== src/Activation.antt =====
-- packages/activation: the quiz items of a course that has just been activated.
pub mod Quiz
mod Tests
