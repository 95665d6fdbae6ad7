-- ===== src/Examples.antt =====
-- Runs at concrete inputs.
pub mod World
pub mod Inbox
pub mod Leases
pub mod Waiting
pub mod Ending
pub mod Sending
pub mod Naming
pub mod Presence
pub mod Receipts
pub mod Operator
pub mod Setup
pub mod Retiring
pub mod Identity
pub mod Binding
