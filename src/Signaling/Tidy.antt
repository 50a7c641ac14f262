-- ===== src/Signaling/Tidy.antt =====
-- src/server/signaling: the table of the rooms, the rooms and the players agree.
pub mod Enter
pub mod Join
pub mod Leave
pub mod Gone
pub mod Say
pub mod Reach
use pong_pp.Common.{ℕ, ◌<◌, ◌≡◌, ◌⊎◌, true, some}
use pong_pp.Signaling.State.{Server, mem}
use pong_pp.Signaling.Rooms.{find_room}

-- The host of the room lives and is in it.
unfoldable pub Waiting : Server → ℕ → Type 0
Waiting s a =
    (h : ℕ) × ((s.heap a).host ≡ some h) × (mem h s.players ≡ true) × (s.room_of h ≡ some a)

-- A room of the table has its code, and its living occupants are in it.
unfoldable pub IsListed : Server → ℕ → ℕ → Type 0
IsListed s c a =
    (a < s.next_address)
    × ((s.heap a).code ≡ c)
    × (c < s.next_code)
    × Waiting s a
    × ((g : ℕ) → (s.heap a).guest ≡ some g → mem g s.players ≡ true → s.room_of g ≡ some a)

-- A player in a room lives, holds a place of it, and the room is in the table.
unfoldable pub IsInside : Server → ℕ → ℕ → Type 0
IsInside s p a =
    (mem p s.players ≡ true)
    × (((s.heap a).host ≡ some p) ⊎ ((s.heap a).guest ≡ some p))
    × (find_room (s.heap a).code s.rooms ≡ some a)

unfoldable pub IsTidy : Server → Type 0
IsTidy s =
    ((c a : ℕ) → find_room c s.rooms ≡ some a → IsListed s c a)
    × ((p a : ℕ) → s.room_of p ≡ some a → IsInside s p a)
