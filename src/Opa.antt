-- ===== src/Opa.antt =====
-- internal/opa: the data store, the input document, and the two evaluators.
pub mod Json
pub mod Store
pub mod Input
pub mod Evaluators
pub mod Embedded
