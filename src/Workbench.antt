-- ===== src/Workbench.antt =====
-- The workbench: drafts of agents, their locks, the approval workflow and the artifacts.
pub mod Schemas
pub mod Table
pub mod Locking
pub mod Service
pub mod Router
pub mod Validation
mod Samples
mod Scenarios
mod Trials
