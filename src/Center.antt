-- ===== src/Center.antt =====
-- crates/novbot-center: the control center.
pub mod Hub
pub mod Examples
