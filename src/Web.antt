-- ===== src/Web.antt =====
-- The state and the handlers of the web application, saas/frontend/src.
pub mod Session
pub mod Pool
pub mod Import
pub mod Export
pub mod Console
pub mod Telemetry
pub mod Panels
pub mod Toasts
