-- ===== src/App.antt =====
-- user-order-api/internal/app: how the application is put together.
pub mod Identities
