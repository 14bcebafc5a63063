-- ===== src/InMemory.antt =====
-- The package backend/inmemory: a runtime in which each routine has its own goroutine.
pub mod Runtime
pub mod Handler
pub mod Wait
pub mod Poll
pub mod WaitLoop
pub mod Machine
