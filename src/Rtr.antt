-- ===== src/Rtr.antt =====
-- The components of src/rtr: the database of validated ROA payloads and its deltas.
pub mod Keys
pub mod Vrp
pub mod ArrayList
pub mod Deltas
pub mod Table
pub mod Filter
pub mod Clients
pub mod Vrps
pub mod Pdu
