-- ===== src/Tests.antt =====
-- Runs of the operations on concrete data, and the theorems at concrete arguments.
pub mod Fixtures
pub mod Service
pub mod Storage
pub mod Rating
pub mod Web
pub mod Routing
mod Driver
mod Sqlite
mod Traffic
mod Process
