-- ===== src/Delivery.antt =====
-- packages/delivery: quizzes that are sent by mail or chat, and the answers to them.
pub mod Contracts
pub mod Rules
pub mod Tokens
pub mod Dispatch
pub mod Answers
pub mod Callback
pub mod Webhook
mod Tests
