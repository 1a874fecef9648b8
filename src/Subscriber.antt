-- ===== src/Subscriber.antt =====
-- src/bgw/subscriber: the worker of one database.
pub mod Runtime
pub mod Nats
pub mod Relation
pub mod Tasks
pub mod Ownership
pub mod Context
pub mod Invariant
pub mod PgApi
pub mod Main
pub mod Lifetime
pub mod Exit
pub mod Orphan
pub mod Small
pub mod Refinement
pub mod Table
pub mod Stored
pub mod Durable
pub mod Arrival
pub mod Restart
pub mod Restore
pub mod Lost
mod Tests
