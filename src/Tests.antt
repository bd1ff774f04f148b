-- ===== src/Tests.antt =====
-- Runs of the definitions on concrete inputs, and the theorems applied to them.
mod Preprocessing
mod Scopes
pub mod Sample
pub mod Wave
mod Texts
mod Messages
mod Sessions
mod Lexing
mod Scanning
mod Processes
