-- ===== src/Temporal.antt =====
-- The package backend/temporal: routines as Temporal workflows, handlers as activities.
pub mod Types
pub mod Activity
pub mod Options
pub mod Queries
pub mod Worker
pub mod Workflow
pub mod Agreement
pub mod Client
