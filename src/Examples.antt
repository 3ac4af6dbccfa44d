-- ===== src/Examples.antt =====
-- The theorems at concrete inputs.
pub mod Fixtures
pub mod OfPairing
pub mod OfRooms
pub mod OfDomain
pub mod OfAuth
pub mod OfAppLock
pub mod OfRealtime
pub mod OfConversations
pub mod OfMessages
