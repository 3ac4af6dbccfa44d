-- ===== src/Pairing.antt =====
-- apps/backend/src/pairing: the codes by which two users find each other.
pub mod Tables
pub mod Reason
pub mod Create
pub mod Active
pub mod Redeem
