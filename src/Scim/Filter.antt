-- ===== src/Scim/Filter.antt =====
-- handlers/scim_filter.go: the filter language, from text to syntax tree, and its evaluation.
-- Texts are ASCII.
pub mod Token
pub mod Ast
pub mod Parser
pub mod Bounds
pub mod Total
pub mod Print
pub mod Lex
pub mod Trim
pub mod Steps
pub mod RoundTrip
pub mod Strict
mod Tests
