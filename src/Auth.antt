-- ===== src/Auth.antt =====
-- frontend/src/app/api/auth: the route modules that open, renew and close a session.
pub mod Provider
pub mod Login
pub mod Mfa
pub mod Routes
pub mod Outcomes
