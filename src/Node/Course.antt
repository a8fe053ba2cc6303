-- ===== src/Node/Course.antt =====
-- `waitForExit`, `signalHandler`, `initializeBlockchain` and `run` of Modules/ContractNode.cpp.
pub mod Signals
pub mod Run
