-- ===== src/Dashboard.antt =====
-- The engine's web dashboard (engine/static/app.js): a module for each part of the page.
pub mod Escape
pub mod Items
pub mod Table
pub mod Polling
pub mod PoolBar
pub mod Status
pub mod Blocklist
pub mod Traffic
pub mod Analytics
pub mod Config
pub mod Navigation
pub mod Actions
pub mod Toasts
pub mod Charts
pub mod Dialogs
pub mod Exports
pub mod Countries
