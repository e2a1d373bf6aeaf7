-- ===== src/Audit.antt =====
-- user-order-api/internal/platform/audit: the consumer of the event queue and the logger of audit records.
pub mod Consumer
pub mod Logger
