-- ===== src/Core.antt =====
-- crates/novbot-core: what node and center share.
pub mod Schedule
pub mod Tags
pub mod Retry
pub mod Skill
pub mod Selector
pub mod Examples
