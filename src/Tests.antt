-- ===== src/Tests.antt =====
-- Tests at concrete inputs, and the theorems at inputs that meet their hypotheses.
mod Addresses
mod Databases
mod Privileges
mod Tasks
mod Comparisons
mod Grants
mod Disks
mod Clock
mod Waits
mod Lists
mod Failures
mod Network
mod Onboarding
