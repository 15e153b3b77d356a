-- ===== src/Client.antt =====
-- The screens of the desktop client (client/frontend/src): a module for each screen with state.
pub mod Home
pub mod Flag
pub mod Rotation
pub mod Settings
pub mod Shell
