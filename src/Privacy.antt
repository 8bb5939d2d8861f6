-- ===== src/Privacy.antt =====
-- The privacy linter (conformance/src/privacy).
pub mod SizeAnalysis
pub mod Depth
pub mod Rules
pub mod SafeFormats
pub mod Platform
pub mod UrlAnalysis
pub mod TokenPatterns
pub mod FieldNames
pub mod RedactKey
pub mod Traverse
pub mod LintEvent
pub mod Tally
pub mod SchemaIssues
pub mod Redaction
pub mod Sums
