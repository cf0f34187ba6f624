-- ===== src/Programs.antt =====
-- The programs under examples/.
pub mod MapAnon
pub mod ListAreas
pub mod Examples
