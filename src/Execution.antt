-- ===== src/Execution.antt =====
-- Stage 7, execution and observation (src/core/execution, src/core/domain/execution_models.py,
-- src/infrastructure/execution_repository.py).
pub mod Models
pub mod Transitions
pub mod Repository
pub mod Service
pub mod Observation
pub mod Simulator
pub mod Examples
