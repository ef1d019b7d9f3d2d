-- ===== src/Parser.antt =====
-- internal/parser: the analysis of a query (parse.go) and schema validation (parser.go).
pub mod Ast
pub mod Info
pub mod Values
pub mod Paths
pub mod Walk
pub mod Analysis
pub mod Schema
