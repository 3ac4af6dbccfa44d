-- ===== src/Rooms.antt =====
-- apps/backend/src/rooms/rooms.service.ts: chat rooms of several members.
pub mod Tables
pub mod Create
pub mod Join
pub mod Requests
pub mod Members
pub mod Settings
pub mod Messages
pub mod Keys
pub mod Reads
pub mod Reason
pub mod Invariant
pub mod Access
