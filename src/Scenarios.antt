-- ===== src/Scenarios.antt =====
-- Concrete runs at which the theorems apply.
pub mod Setup
pub mod Arrays
mod Filters
mod Histories
mod Methods
mod Plans
mod Storage
mod Waiting
