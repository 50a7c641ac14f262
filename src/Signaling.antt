-- ===== src/Signaling.antt =====
-- src/server/signaling/: the rooms, the players and the hub, and the text protocol between them.
pub mod Verb
pub mod Text
pub mod State
pub mod Rooms
pub mod Player
pub mod Dispatch
pub mod Broadcast
pub mod Relay
pub mod Session
pub mod Cases
pub mod Cleanup
pub mod Meet
pub mod Abandoned
pub mod Tidy
pub mod Housed
pub mod Listing
pub mod Lobby
pub mod Tests
