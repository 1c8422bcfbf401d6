-- ===== src/Gateway.antt =====
-- packages/rds-access/src/gateway: onboarding of a gateway to a database.
pub mod Bits
pub mod Text
pub mod Address
pub mod Model
pub mod Decimal
pub mod Connectivity
pub mod Route
pub mod Grants
pub mod Planners
pub mod Onboard
