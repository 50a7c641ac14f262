-- ===== src/Signaling/State.antt =====
-- The objects of the server: src/server/signaling/room.h, the members of `Rooms`, `Hub` and
-- `Player`, and the weak pointers between them.
use pong_pp.Common.{
  ℕ, Bool, true, false, not, ◌||◌, Option, none, some, List, [], ◌∷◌, ◌++◌, ◌==◌, if◌then◌else◌,
}
use pong_pp.Ws.Frame.{text, encode_frame}

-- `host` and `guest` are weak pointers: the name of the object, which may be gone.
pub record Room : Type 0 where
  pub code : ℕ
  pub host : Option ℕ
  pub guest : Option ℕ

-- A `Player` is named by a number, a `Room` object by its place in `heap`. The players of `players`
-- are those that live: the hub holds the only lasting `shared_ptr` to each. `rooms` and `players`
-- stand for the unordered containers, in the order in which those are walked. `sent` is all that was
-- written so far, with the player whose connection it went to.
pub record Server : Type 0 where
  pub heap : ℕ → Room
  pub next_address : ℕ
  pub rooms : List (ℕ × ℕ)
  pub next_code : ℕ
  pub players : List ℕ
  pub room_of : ℕ → Option ℕ
  pub sent : List (ℕ × List ℕ)

abbrev pub update {ℓ} : {A : Type ℓ} → (ℕ → A) → ℕ → A → ℕ → A
update f i v j = if j == i then v else f j

abbrev pub mem : ℕ → List ℕ → Bool
mem p [] = false
mem p (q ∷ players) = p == q || mem p players

-- std::weak_ptr::lock
abbrev pub lock : Server → Option ℕ → Option ℕ
lock s none = none
lock s (some p) = if mem p s.players then some p else none

abbrev pub is_none {ℓ} : {A : Type ℓ} → Option A → Bool
is_none none = true
is_none (some a) = false

-- std::weak_ptr::expired
abbrev pub expired : Server → Option ℕ → Bool
expired s w = is_none (lock s w)

-- Player::InRoom
abbrev pub in_room : Server → ℕ → Bool
in_room s p = not (is_none (s.room_of p))

-- Player::Send
unfoldable pub send : ℕ → List ℕ → Server → Server
send p msg s = record s { sent = s.sent ++ (p, encode_frame text msg) ∷ [] }
