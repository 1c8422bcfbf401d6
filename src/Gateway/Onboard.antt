-- ===== src/Gateway/Onboard.antt =====
-- The onboarding of a database behind the gateway: packages/rds-access/src/gateway/onboard.ts.
pub mod Api
pub mod Await
pub mod Steps
pub mod Discover
pub mod Apply
pub mod Laws
pub mod Idle
pub mod Password
