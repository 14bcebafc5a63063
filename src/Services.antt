-- ===== src/Services.antt =====
-- The services of docs/howto, written against the package durable.
pub mod Encoding
pub mod Registered
pub mod Auction
pub mod Batch
pub mod Booking
pub mod Fanout
pub mod Order
pub mod Pipeline
pub mod Provider
pub mod Reminder
pub mod Saga
