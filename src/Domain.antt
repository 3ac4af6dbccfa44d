-- ===== src/Domain.antt =====
-- apps/backend/src/domain: the server's rules, free of framework and database.
pub mod Text
pub mod Lockout
pub mod PairingCode
pub mod MessageState
pub mod SessionEpoch
pub mod Username
pub mod RoomRules
pub mod DeviceIdentity
