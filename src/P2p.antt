-- ===== src/P2p.antt =====
-- Modules/P2pHandler.hpp and Modules/P2pHandler.cpp: what the P2P node asks of the chain.
pub mod Defs
pub mod Ends
pub mod BlockIds
pub mod Synopsis
pub mod Handler
pub mod Exchange
mod Tests
