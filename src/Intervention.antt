-- ===== src/Intervention.antt =====
-- Stage 6: whether and how to intervene (src/core/intervention).
pub mod Models
pub mod Policy
pub mod Gates
pub mod Calculator
pub mod Ranking
pub mod Repository
pub mod Context
pub mod Service
pub mod History
pub mod Examples
