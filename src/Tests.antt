-- ===== src/Tests.antt =====
-- Sample inputs, tests by evaluation, and the theorems at concrete inputs.
pub mod Samples
mod Parser
mod Admin
mod Opa
mod Ratelimit
mod Server
mod Proxy
mod Startup
mod Serve
mod Typed
mod AdminPort
mod Concurrent
