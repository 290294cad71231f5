-- ===== src/Tests.antt =====
-- Runs of the definitions at concrete inputs, and the theorems at inputs where their conditions
-- hold.
pub mod Tables
mod Rtr
mod Resources
mod Pdu
mod Inherit
mod Slurm
mod Clients
