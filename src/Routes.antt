-- ===== src/Routes.antt =====
-- frontend/src/app/api: the route modules that forward to the back end.
pub mod Handlers
pub mod Crm
pub mod Sales
pub mod Account
pub mod Files
pub mod V3
pub mod Stream
pub mod Exchange
