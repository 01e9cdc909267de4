-- ===== src/Observability.antt =====
-- internal/observability
pub mod Collectors
pub mod Metrics
pub mod Logger
