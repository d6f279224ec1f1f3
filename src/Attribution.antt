-- ===== src/Attribution.antt =====
-- Stage 8: what an intervention is credited with.
pub mod Models
pub mod Calculator
pub mod Repository
pub mod Evidence
pub mod Service
pub mod Examples
