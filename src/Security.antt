-- ===== src/Security.antt =====
-- user-order-api/internal/platform/security: the counters of fixed windows and the rate limiter.
pub mod Counter
pub mod Limiter
pub mod Cors
