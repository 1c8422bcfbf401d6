-- ===== src/Tair.antt =====
-- The Tair providers of src/tair: allowlists and accounts of an instance.
pub mod Client
pub mod IpGroup
pub mod Account
