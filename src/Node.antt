-- ===== src/Node.antt =====
-- crates/novbot-node: the daemon on a host.
pub mod Package
pub mod Skills
pub mod Examples
pub mod HostExamples
