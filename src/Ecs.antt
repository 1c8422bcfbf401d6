-- ===== src/Ecs.antt =====
-- The ECS providers of src/ecs: rules of a security group and attachments of disks.
pub mod Client
pub mod Rules
pub mod Directions
pub mod Disk
pub mod Attachment
pub mod Reconcile
