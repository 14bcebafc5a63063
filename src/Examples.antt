-- ===== src/Examples.antt =====
-- A small routine, and the theorems at it: the properties' hypotheses hold in runs of real handlers.
mod Counter
mod Strings
mod Schedules
mod Registry
mod Waits
mod Effects
mod Slots
mod Answers
mod Runs
mod Workflows
mod Backends
mod Trips
mod Batches
mod Continued
mod Bids
mod Fans
mod Payments
mod Orders
mod Pipes
mod Views
