-- ===== src/Examples.antt =====
-- The theorems applied to concrete inputs.
pub mod Table
pub mod Page
pub mod Traffic
pub mod Polling
pub mod Settings
pub mod Limits
pub mod Leases
pub mod Sessions
pub mod Accounts
pub mod Seeds
pub mod Process
pub mod Usage
pub mod Screens
pub mod Cloud
pub mod Fleet
pub mod Engine
pub mod Views
pub mod Notices
pub mod Api
