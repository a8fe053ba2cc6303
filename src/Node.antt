-- ===== src/Node.antt =====
-- Modules/ContractNode.hpp and Modules/ContractNode.cpp: the plugins, the signals of the process
-- and the course of the program.
pub mod Defs
pub mod Libraries
pub mod Plugins
pub mod Blocks
pub mod Dump
pub mod Course
pub mod Sync
pub mod Life
pub mod Demarcation
mod Tests
