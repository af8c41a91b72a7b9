-- ===== src/Session.antt =====
-- frontend/src/app/api/auth/shared.ts: the session that every route of the BFF shares.
pub mod Config
pub mod Backend
pub mod Csrf
pub mod Cookies
pub mod Refresh
pub mod SingleFlight
