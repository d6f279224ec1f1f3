-- ===== src/Attempts.antt =====
-- Payment attempt identity and the registry (src/core/domain/payment_attempts.py,
-- src/infrastructure/payment_attempt_repository.py).
pub mod Identity
pub mod Registry
pub mod Lifecycle
pub mod Examples
