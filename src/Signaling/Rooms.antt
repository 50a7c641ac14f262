-- ===== src/Signaling/Rooms.antt =====
-- src/server/signaling/rooms.cpp and hub.cpp: the table of the rooms, and what the hub sends to the
-- players in the lobby when it changes.
use pong_pp.Common.{
  ℕ, suc, ◌+◌, not, Option, none, some, List, [], ◌∷◌, ◌++◌, ◌==◌, u64, if◌then◌else◌,
}
use pong_pp.Common.Decimal.{to_string}
use pong_pp.Signaling.State.{Server, update, mem, expired, in_room, is_none, send}
use pong_pp.Signaling.Verb

-- rooms_.find(code)
unfoldable pub find_room : ℕ → List (ℕ × ℕ) → Option ℕ
find_room code [] = none
find_room code ((c, a) ∷ rooms) = if code == c then some a else find_room code rooms

-- rooms_.erase(code): all entries with the code.
unfoldable pub erase : ℕ → List (ℕ × ℕ) → List (ℕ × ℕ)
erase code [] = []
erase code ((c, a) ∷ rooms) =
    let rest = erase code rooms in if code == c then rest else (c, a) ∷ rest

-- rooms_.emplace(code, room): an entry with the code stays.
unfoldable pub emplace : ℕ → ℕ → List (ℕ × ℕ) → List (ℕ × ℕ)
emplace code a rooms = if is_none (find_room code rooms) then (code, a) ∷ rooms else rooms

-- Rooms::JoinableCodes
unfoldable pub joinable_codes : Server → List (ℕ × ℕ) → List ℕ
joinable_codes s [] = []
joinable_codes s ((code, a) ∷ rooms) =
    if expired s (s.heap a).guest then code ∷ joinable_codes s rooms else joinable_codes s rooms

unfoldable pub room_words : List ℕ → List ℕ
room_words [] = []
room_words (code ∷ codes) = b' ' ∷ (to_string code ++ room_words codes)

-- RoomsLine
unfoldable pub rooms_line : Server → List ℕ
rooms_line s = Verb.rooms ++ room_words (joinable_codes s s.rooms)

-- The loop of Hub::BroadcastRoomList.
unfoldable pub broadcast : List ℕ → List ℕ → Server → Server
broadcast msg [] s = s
broadcast msg (p ∷ players) s = broadcast msg players (if in_room s p then s else send p msg s)

-- Hub::BroadcastRoomList, which is also Rooms::Notify.
unfoldable pub notify : Server → Server
notify s = broadcast (rooms_line s) s.players s

-- Hub::Register
unfoldable pub register : ℕ → Server → Server
register p s = if mem p s.players then s else record s { players = p ∷ s.players }

unfoldable pub remove : ℕ → List ℕ → List ℕ
remove p [] = []
remove p (q ∷ players) = let rest = remove p players in if p == q then rest else q ∷ rest

-- Hub::Unregister
unfoldable pub unregister : ℕ → Server → Server
unregister p s = record s { players = remove p s.players }

-- Player::EnterRoomAsHost and EnterRoomAsGuest
unfoldable pub enter_as_host : ℕ → ℕ → Server → Server
enter_as_host p a s = record s {
  heap = update s.heap a (record (s.heap a) { host = some p });
  room_of = update s.room_of p (some a);
}

unfoldable pub enter_as_guest : ℕ → ℕ → Server → Server
enter_as_guest p a s = record s {
  heap = update s.heap a (record (s.heap a) { guest = some p });
  room_of = update s.room_of p (some a);
}

-- Player::LeaveRoom
unfoldable pub leave_room : ℕ → Server → Server
leave_room p s = record s { room_of = update s.room_of p none }

-- std::make_shared<Room>() with `room->code = next_code_++`, and its entry in the table.
unfoldable pub make_room : Server → Server
make_room s = record s {
  heap = update s.heap s.next_address (record { code = s.next_code; host = none; guest = none });
  next_address = suc s.next_address;
  rooms = emplace s.next_code s.next_address s.rooms;
  next_code = u64 (s.next_code + 1);
}

-- Rooms::NewRoom: the room's address, and the server.
unfoldable pub new_room : ℕ → Server → ℕ × Server
new_room host s = (s.next_address, notify (enter_as_host host s.next_address (make_room s)))

-- Rooms::Join
unfoldable pub join_room : ℕ → ℕ → Server → Option ℕ × Server
join_room code guest s = elim (find_room code s.rooms) [
  | none ↦ (none, s)
  | some a ↦
      if not (expired s (s.heap a).guest)
      then (none, s)
      else (some a, notify (enter_as_guest guest a s))
]

-- Rooms::Delete
unfoldable pub delete_room : ℕ → Server → Server
delete_room code s =
    if is_none (find_room code s.rooms) then s else notify (record s { rooms = erase code s.rooms })
