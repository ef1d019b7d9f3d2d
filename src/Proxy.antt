-- ===== src/Proxy.antt =====
-- internal/proxy/proxy.go: the handler that inspects GraphQL requests and forwards or answers them.
pub mod Text
pub mod Tenant
pub mod Http
pub mod Handler
pub mod Batch
pub mod Serve
pub mod Mediation
pub mod Carried
pub mod Rule
pub mod Invariant
pub mod Accounting
pub mod Upstream
pub mod Answers
