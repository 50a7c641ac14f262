-- ===== src/Client.antt =====
-- src/client/main.cpp: the game that runs in each player's browser.
pub mod Wire
pub mod Float
pub mod FixedPoint
pub mod Field
pub mod Game
pub mod Ball
pub mod Limits
pub mod Paddle
pub mod Peer
pub mod Screen
pub mod Tick
pub mod Fair
pub mod Mirror
pub mod Goals
pub mod Overflow
pub mod Range
pub mod Serves
pub mod Duel
mod Tests
