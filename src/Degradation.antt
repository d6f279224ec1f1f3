-- ===== src/Degradation.antt =====
-- Stage 3, degradation detection (src/core/degradation, src/core/domain/degradation_models.py).
pub mod Models
pub mod Signal
pub mod Severity
pub mod Timeline
pub mod Repository
pub mod Service
mod Examples
