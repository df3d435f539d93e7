-- ===== src/Router.antt =====
-- packages/model-router: the policy that routes a model task to an adapter, and the router that
-- calls it under a deadline, with retries and one fallback.
pub mod Policy
pub mod Trace
pub mod Attempts
pub mod Execute
mod Tests
