-- ===== src/Api.antt =====
-- What the SQL functions of a database send to the launcher: src/bgw/fdw.rs, `nats_subscribe` and
-- `nats_unsubscribe` of src/api/nats.rs, and `resolve_bytea_name` of src/utils.rs.
pub mod Functions
pub mod Accepted
pub mod Validator
pub mod Subscribe
pub mod Delivery
pub mod Rows
pub mod Uncallable
pub mod Client
mod Tests
