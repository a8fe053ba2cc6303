-- ===== src/Chain.antt =====
-- Modules/ChainHandler.hpp and Modules/ChainHandler.cpp: the databases, the contracts' object
-- spaces, and the monitors of their tables.
pub mod Records
pub mod Registry
pub mod Monitor
pub mod Genesis
pub mod InMemory
pub mod Inspect
mod Tests
