-- ===== src/Rooms/Access.antt =====
-- Who may do what in rooms.service.ts.
pub mod Owner
pub mod Removal
pub mod Joining
pub mod Accepting
