-- ===== src/Runtime.antt =====
-- The runtime package (packages/runtime/src).
pub mod Checks
pub mod Search
pub mod Manifest
pub mod Compiler
pub mod Acyclic
pub mod Scopes
pub mod Aim
mod Examples
