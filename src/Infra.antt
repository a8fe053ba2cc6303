-- ===== src/Infra.antt =====
-- Infra/: the lists of types, compile-time strings, and the search for advertised APIs. A type
-- that a template computes with is a value here, and a template a function.
pub mod TypeList
pub mod StaticVariant
pub mod Strings
pub mod Demarcation
pub mod Api
pub mod Modular
pub mod Reflect
mod Tests
