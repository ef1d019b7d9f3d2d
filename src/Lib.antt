-- ===== src/Lib.antt =====
-- A model of gql-firewall, a GraphQL firewall that parses each request, asks OPA for a decision, and
-- forwards the request to the upstream or answers it.
--
-- A request enters at the handler of internal/proxy/proxy.go, which analyses its query by
-- internal/parser and hands the report to the composite evaluator of cmd/server/main.go. That one
-- validates it against the schema, builds the input of internal/opa/input.go from the report and the
-- data store, and takes a decision from its cache or from an OPA evaluator.
--
-- - Base: lists, texts as lists of bytes, maps as association lists, number formats.
-- - Parser: internal/parser. Ast has the shape of gqlparser's documents; Values is measureValueDepth,
--   Walk is walkSelections, Analysis is parseGraphQL, Paths is splitPath, Schema is Validate.
--   Walk.Rule is the induction over the walk; Walk.Selected says what a set selects, without the walk's
--   marks, and Walk.Sweeps how the marks stand to it.
-- - Metrics: internal/metrics, as a list of recorded events.
-- - Opa: internal/opa. Store is DataStore, Store.Spec its abstract view, Input is BuildInput,
--   Evaluators has the interface and the sidecar client, Embedded is EmbeddedEvaluator.
-- - Ratelimit: internal/ratelimit, with exact numbers for its floats: a rate is in millionths of a
--   request per second. Credit has each operation; Bounds, Isolation and Waiting have
--   whole sequences of them, and Lifecycle has the clean-up's goroutine and Stop.
-- - Server: cmd/server/main.go. CacheKey is decisionCacheKey and simpleHash, Evaluate is
--   compositeEvaluator.Evaluate as one function of the cache and the events, and Concurrent the same as
--   steps that interleave with those of other evaluations and with changes of the store. Middleware is
--   rateLimitMiddleware and requireAdminAuth, Admin is adminMux. Startup is main from the parsed flags to
--   what is served, Pipeline the evaluator that it gives to the proxy, Serve the main port and the
--   admin port.
-- - Proxy: internal/proxy/proxy.go. Text and Tenant are its functions on strings, Http the parts of
--   net/http that it uses, Handler, Batch and Serve its handlers, Upstream is New and the director of
--   the reverse proxy. Rule is the induction over the handlers, by which Invariant is about the
--   evaluator's state when it is asked about what a request carries (Carried), Accounting about the
--   counters and Answers about the texts of the answers, which it reads with a JSON reader of its own;
--   Mediation is about what reaches the upstream.
--
-- A request to a started server passes Serve (the mux and the limiter of Ratelimit), then Proxy, which
-- asks Evaluate by Pipeline; Serve.Changing has requests among changes of the store by the
-- admin API, Serve.Allowed puts the parts together, Serve.Decided goes from there to the sidecar or the
-- policy file, and Serve.Typed to the document and the schema file.
--
-- The walk takes fuel, one unit for each fragment that it enters; the analysis gives it one more than
-- the document has fragments, which Parser.Walk.Total shows to be enough. Numbers printed in decimal
-- have at most 19 digits, and a 64-bit hash at most 16 hexadecimal ones. The hash keeps its wrap-around
-- modulo 2 ^ 64; counters of a query are below 2 ^ 63 by far and are natural numbers. Sizes, times and
-- limits that the source tests only for being positive are natural numbers, where 0 stands for all that
-- are not positive.
--
-- Parameters stand for what is not in the repository: gqlparser (with the hypothesis that ForName finds
-- a listed fragment of that name, and for one result that names are not empty and have no dot), the
-- Rego engine, JSON, the verb %q (with the hypothesis, for one result, of how it writes printable ASCII),
-- SHA-256, HTTP calls, url.Parse, httputil's director, files and the clock.
--
-- Not modelled: the parsing of the flags, logging, timeouts, listeners and shutdown in main, the path
-- cleaning of the mux, Prometheus itself, the reverse proxy but for its director and for whether it
-- panics, the ticker of the limiter's clean-up, and the rounding of its floats. Metrics are left out
-- of Concurrent. The limiter's and the store's methods hold their lock from end to end, so they are
-- single steps; locks are not waited for in Concurrent, and OPA is not left without an answer, so
-- nothing is said of blocking. What OPA answers is a function of the input. Requests in Serve follow
-- one another; Serve.Changing has changes of the store between them, and Admin a request to the admin
-- API as one step, where an update of the rules with an embedded evaluator locks the store twice for
-- the same write. Whether a parse loses against its timer depends in the model on the text alone.
pub mod Base
pub mod Parser
pub mod Metrics
pub mod Opa
pub mod Ratelimit
pub mod Server
pub mod Proxy
mod Tests
