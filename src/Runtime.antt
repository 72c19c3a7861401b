-- ===== src/Runtime.antt =====
-- crates/novbot-skill-runtime: what the sandbox of a skill lets a host call reach.
pub mod Glob
pub mod FilePath
pub mod Deny
pub mod Grant
pub mod Examples
pub mod PathExamples
