-- ===== src/Server.antt =====
-- cmd/server/main.go: the composite evaluator, the rate limit middleware, the admin API, the start-up, and
-- what is served.
pub mod CacheKey
pub mod Evaluate
pub mod Middleware
pub mod Admin
pub mod Pipeline
pub mod Startup
pub mod Serve
pub mod Concurrent
