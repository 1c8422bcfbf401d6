-- ===== src/Rds.antt =====
-- The RDS providers of src/rds: allowlists, accounts, databases and the settings of an instance.
pub mod Client
pub mod IpLists
pub mod IpGroup
pub mod Account
pub mod Database
pub mod Privilege
pub mod Reconcile
pub mod Configuration
