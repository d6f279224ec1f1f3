-- ===== src/Features.antt =====
-- Stage 5: what was known of a payment at an instant (src/infrastructure/feature_reconstruction_repository.py).
pub mod Repository
