-- ===== src/Outbox.antt =====
-- user-order-api/internal/platform/outbox: events, the outbox table, its publisher and the inbox.
pub mod Event
pub mod Table
pub mod Append
pub mod Worker
pub mod Inbox
