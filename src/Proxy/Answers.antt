-- ===== src/Proxy/Answers.antt =====
-- The texts that proxy.go answers with, against a reader of JSON objects.
pub mod Reader
pub mod Texts
pub mod Served
