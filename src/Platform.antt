-- ===== src/Platform.antt =====
-- user-order-api/internal/platform: what the components share.
pub mod Httpx
pub mod Page
pub mod Principal
pub mod Requests
