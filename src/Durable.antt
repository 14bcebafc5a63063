-- ===== src/Durable.antt =====
-- The package durable/, and the key format of internal/durablecore.
pub mod Keys
pub mod Payload
pub mod Continuation
pub mod Context
pub mod Worker
pub mod Routine
pub mod Registration
pub mod Client
