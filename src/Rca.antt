-- ===== src/Rca.antt =====
-- Stage 4: root cause analysis (src/core/rca).
pub mod Models
pub mod Calculator
pub mod Ranking
pub mod Segments
pub mod Repository
pub mod Service
mod Examples
