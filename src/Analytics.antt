-- ===== src/Analytics.antt =====
-- src/core/analytics and src/infrastructure/analytics_repository.py: Stage 2, the health of payments per
-- window and segment.
pub mod Calculator
pub mod Repository
pub mod Service
