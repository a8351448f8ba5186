-- ===== src/Examples.antt =====
-- The theorems at concrete inputs: a small request protocol between two agents.
pub mod Data
mod Spirit
pub mod Messages
pub mod Machines
pub mod Tables
mod Encoding
