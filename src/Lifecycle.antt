-- ===== src/Lifecycle.antt =====
-- src/internal/lifecycle.ts and src/internal/identity.ts: bounded observation, exhaustive
-- pagination, deletion that survives a restart, tags and identities.
pub mod Observe
pub mod Wait
pub mod Paginate
pub mod Delete
pub mod Identity
