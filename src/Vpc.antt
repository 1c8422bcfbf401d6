-- ===== src/Vpc.antt =====
-- The VPC providers of src/vpc: public addresses, their association, NAT gateways and SNAT entries,
-- and what they share, src/vpc/internal.ts.
pub mod Client
pub mod Eip
pub mod Association
pub mod Nat
pub mod Snat
pub mod Reconcile
pub mod Delete
