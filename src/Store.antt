-- ===== src/Store.antt =====
-- internal/store/sqlite: the durable store. Each operation is one transaction: a function from the
-- database to a result, which holds the new database only if it commits.
pub mod Tables
pub mod Db
pub mod Events
pub mod Messages
pub mod Recipients
pub mod Transition
pub mod Claiming
pub mod Finishing
pub mod Reading
pub mod Availability
pub mod Outbox
pub mod Invariant
pub mod Routes
pub mod Addressing
pub mod Sending
pub mod Adoption
pub mod AliasRequests
pub mod Aliases
pub mod HostAttention
pub mod Sessions
pub mod Conditions
pub mod AliasClaims
pub mod Lifecycle
pub mod Identity
