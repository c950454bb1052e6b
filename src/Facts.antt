-- ===== src/Facts.antt =====
-- The evidence rules of internal/facts.
pub mod Interval
pub mod Contradict
pub mod Formal
pub mod Audit
pub mod Crm
