-- ===== src/Utils.antt =====
-- src/utils.rs: the argument of a subscriber worker, and the bytes of a payload.
pub mod Bits
pub mod Bytes
pub mod Handles
mod Tests
