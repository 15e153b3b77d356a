-- ===== src/Saas.antt =====
-- The API server of the hosted service (saas/src): a module for each part.
pub mod Domain
pub mod Errors
pub mod Guards
pub mod RateLimiter
pub mod Leasing
pub mod Tokens
pub mod Relays
pub mod Accounts
pub mod Billing
pub mod Usage
pub mod Idempotency
pub mod Pipeline
pub mod AuthRoutes
pub mod Users
pub mod SeedData
pub mod Seed
pub mod Server
