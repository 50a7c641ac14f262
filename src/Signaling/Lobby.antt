-- ===== src/Signaling/Lobby.antt =====
-- What src/server/signaling promises, without its objects: who is connected, and which room, by its
-- code, each player is in.
pub mod Rooms
mod Paired
pub mod Taken
pub mod Refines
pub mod Open
use pong_pp.Common.{ℕ, Bool, true, false, Option, none, some, ◌≡◌, ◌≢◌, ap, refl, ◌∙◌, sym}
use pong_pp.Signaling.State.{Server, mem}

pub record Lobby : Type 0 where
  pub lives : ℕ → Bool
  pub room : ℕ → Option ℕ

-- Nobody is connected.
abbrev pub empty_lobby : Lobby
empty_lobby = record { lives = λ x. false; room = λ x. none }

abbrev pub SameLives : Lobby → Lobby → Type 0
SameLives l l' = (x : ℕ) → l'.lives x ≡ l.lives x

abbrev pub SameRooms : Lobby → Lobby → Type 0
SameRooms l l' = (x : ℕ) → l'.room x ≡ l.room x

-- The player `p` is now in `room`, and the others where they were.
abbrev pub Moved : ℕ → Option ℕ → Lobby → Lobby → Type 0
Moved p room l l' = (l'.room p ≡ room) × ((x : ℕ) → p ≢ x → l'.room x ≡ l.room x)

-- What a player does: it connects, asks for a room, asks to enter the room with a code, says
-- anything else, or its connection ends.
pub data Action : Type 0 where
  arrival create talk departure : ℕ → Action
  join : ℕ → ℕ → Action

-- Everybody in the room `c` has company.
abbrev pub IsTaken : Lobby → ℕ → Type 0
IsTaken l c = (h : ℕ) → l.room h ≡ some c → (y : ℕ) × (y ≢ h) × (l.room y ≡ some c)

-- A player arrives in no room; one opens a room that nobody is in; one enters the room of a player
-- who is alone in it, or is refused if there is none; what else is said changes nothing; a player is
-- gone, and all that were in its room are in none.
pub data LobbyStep : Action → Lobby → Lobby → Type 0 where
  arrives :
      (p : ℕ) {l l' : Lobby}
      → l.lives p ≡ false
      → l.room p ≡ none
      → l'.lives p ≡ true
      → ((x : ℕ) → p ≢ x → l'.lives x ≡ l.lives x)
      → SameRooms l l'
      → LobbyStep (arrival p) l l'
  opens :
      (p c : ℕ) {l l' : Lobby}
      → l.lives p ≡ true
      → l.room p ≡ none
      → ((x : ℕ) → l.room x ≢ some c)
      → SameLives l l'
      → Moved p (some c) l l'
      → LobbyStep (create p) l l'
  enters :
      (p h c : ℕ) {l l' : Lobby}
      → l.lives p ≡ true
      → l.room p ≡ none
      → l.room h ≡ some c
      → ((x : ℕ) → l.room x ≡ some c → x ≡ h)
      → SameLives l l'
      → Moved p (some c) l l'
      → LobbyStep (join p c) l l'
  is_refused :
      (p c : ℕ) {l l' : Lobby}
      → IsTaken l c
      → SameLives l l'
      → SameRooms l l'
      → LobbyStep (join p c) l l'
  talks : (p : ℕ) {l l' : Lobby} → SameLives l l' → SameRooms l l' → LobbyStep (talk p) l l'
  parts :
      (p : ℕ) {l l' : Lobby}
      → l.lives p ≡ true
      → l'.lives p ≡ false
      → ((x : ℕ) → p ≢ x → l'.lives x ≡ l.lives x)
      → l'.room p ≡ none
      → ((x c : ℕ) → l.room p ≡ some c → l.room x ≡ some c → l'.room x ≡ none)
      → ((x : ℕ) → p ≢ x → ((c : ℕ) → l.room p ≡ some c → l.room x ≢ some c) → l'.room x ≡ l.room x)
      → LobbyStep (departure p) l l'

-- The lobby of the server.
abbrev pub code_of : Server → Option ℕ → Option ℕ
code_of s none = none
code_of s (some a) = some (s.heap a).code

abbrev pub lobby : Server → Lobby
lobby s = record { lives = λ x. mem x s.players; room = λ x. code_of s (s.room_of x) }
