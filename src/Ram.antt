-- ===== src/Ram.antt =====
-- The RAM providers of src/ram: roles, policies, and policies attached to roles.
pub mod Client
pub mod Attachment
pub mod Role
pub mod Policy
pub mod Pages
