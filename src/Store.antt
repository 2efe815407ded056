-- ===== src/Store.antt =====
-- internal/store: the stores behind the `Store` interface, and what they are built from.
pub mod Assoc
pub mod Keyed
pub mod Filter
pub mod Sort
pub mod Page
pub mod Db
pub mod Memory
pub mod Driver
pub mod Statements
pub mod Sqlite
