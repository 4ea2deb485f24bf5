-- ===== src/Runner.antt =====
-- packages/runner: the write pipeline. The environment and the errors, the policies, one handler
-- attempt, the retry loop and the claim; then the protocol that every run obeys.
pub mod Errors
pub mod Environment
pub mod Timeout
pub mod Policies
pub mod Attempt
pub mod Execute
pub mod Detailed
pub mod Protocol
mod Examples
