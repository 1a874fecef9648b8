-- ===== src/Subscriber/Tests.antt =====
-- The theorems on src/bgw/subscriber with a small runtime and a small database.
mod Worker
mod Table
mod Arrival
