-- ===== src/Signaling/Tidy/Leave.antt =====
-- The end of a player's connection, in or out of a room.
use pong_pp.Common.{
  ℕ, ◌≡◌, ◌∙◌, ap, sym, true, false, inl, inr, Bool-cases, Option, none, some, List, ◌==◌, ◌≢◌,
  arith,
}
use pong_pp.Signaling.State.{Server, mem}
use pong_pp.Signaling.Rooms.{find_room, erase, remove}
use pong_pp.Signaling.Broadcast.{
  find_room-erase, find_room-erase_other, mem-remove, mem-remove_other,
}
use pong_pp.Signaling.Tidy.{Waiting, IsListed, IsInside, IsTidy}

-- What a player's end leaves: the room at `a` is off the table, the player is gone, and the others
-- keep their rooms, or are put out if they were in that one.
abbrev pub without_room : ℕ → ℕ → (ℕ → Option ℕ) → Server → Server
without_room a p room_of s = record s {
  rooms = erase (s.heap a).code s.rooms;
  players = remove p s.players;
  room_of = room_of;
}

-- The rooms of all players but those in the room at `a`.
unfoldable pub IsPutOut : Server → ℕ → ℕ → (ℕ → Option ℕ) → Type 0
IsPutOut s a p room_of =
    ((x b : ℕ) → room_of x ≡ some b → (s.room_of x ≡ some b) × (b ≢ a) × (x ≢ p))
    × ((x b : ℕ) → s.room_of x ≡ some b → b ≢ a → room_of x ≡ some b)

-- An entry that stays is that of another room.
pub other_entry :
    (s : Server) (a c b : ℕ)
    → IsTidy s
    → find_room (s.heap a).code s.rooms ≡ some a
    → find_room c (erase (s.heap a).code s.rooms) ≡ some b
    → (find_room c s.rooms ≡ some b) × (b ≢ a) × (c ≢ (s.heap a).code)
unfolding IsTidy IsListed
other_entry s a c b tidy listed e = elim (Bool-cases (c == (s.heap a).code)) [
  | inl gone ↦
      let eq : c ≡ (s.heap a).code = ground arith in
      absurd (
        let missing : find_room c (erase (s.heap a).code s.rooms) ≡ none =
          ap (λ x. find_room x (erase (s.heap a).code s.rooms)) eq
          ∙ find_room-erase (s.heap a).code s.rooms in
        cc)
  | inr other ↦
      let differs : c ≢ (s.heap a).code = ground arith in
      let stays : find_room c s.rooms ≡ some b =
        sym (find_room-erase_other c (s.heap a).code s.rooms differs) ∙ e in
      (stays, (λ eq. differs (sym ((tidy.0 c b stays).1) ∙ ap (λ x. (s.heap x).code) eq)), differs)
]

pub still_lives :
    (x p : ℕ) (players : List ℕ) → x ≢ p → mem x players ≡ true → mem x (remove p players) ≡ true
still_lives x p players h e = mem-remove_other x p players h ∙ e

pub lived :
    (x p : ℕ) (players : List ℕ)
    → mem x (remove p players) ≡ true
    → (x ≢ p) × (mem x players ≡ true)
lived x p players e = elim (Bool-cases (x == p)) [
  | inl self ↦
      let eq : x ≡ p = ground arith in
      absurd (
        let gone : mem x (remove p players) ≡ false =
          ap (λ y. mem y (remove p players)) eq ∙ mem-remove p players in
        cc)
  | inr other ↦
      let differs : x ≢ p = ground arith in
      (differs, sym (mem-remove_other x p players differs) ∙ e)
]

-- Two rooms of one player are one.
one_room : (s : Server) (x a b : ℕ) → s.room_of x ≡ some a → s.room_of x ≡ some b → b ≡ a
one_room s x a b e e' = cc

without_room-IsListed :
    (s : Server) (a p c b : ℕ) (room_of : ℕ → Option ℕ)
    → b ≢ a
    → s.room_of p ≡ some a
    → IsPutOut s a p room_of
    → IsListed s c b
    → IsListed (without_room a p room_of s) c b
unfolding IsListed Waiting IsPutOut
without_room-IsListed s a p c b room_of differs inside (gone, kept)
      (bound, code, below, (h, host, lives, there), guest) =
    (
      bound,
      code,
      below,
      (
        h,
        host,
        still_lives h p s.players (λ e. differs (one_room s h a b (ap s.room_of e ∙ inside) there))
            lives,
        kept h b there differs,
      ),
      λ g place alive. kept g b (guest g place (lived g p s.players alive).1) differs,
    )

pub without_room-IsTidy :
    (s : Server) (a p : ℕ) (room_of : ℕ → Option ℕ)
    → IsTidy s
    → s.room_of p ≡ some a
    → find_room (s.heap a).code s.rooms ≡ some a
    → IsPutOut s a p room_of
    → IsTidy (without_room a p room_of s)
unfolding IsTidy IsInside IsPutOut
without_room-IsTidy s a p room_of tidy inside listed out = (
  λ c b e.
      let (stays, differs, other) = other_entry s a c b tidy listed e in
      without_room-IsListed s a p c b room_of differs inside out (tidy.0 c b stays),
  λ x b e.
      let (was, differs, other) = out.0 x b e in
      let (lives, place, found) = tidy.1 x b was in
      (
        still_lives x p s.players other lives,
        place,
        find_room-erase_other (s.heap b).code (s.heap a).code s.rooms
              (λ eq. differs (same_entry b (ap (λ y. find_room y s.rooms) (sym eq) ∙ found)))
            ∙ found,
      ),
)
  where
    same_entry : (b : ℕ) → find_room (s.heap a).code s.rooms ≡ some b → b ≡ a
    same_entry b e = cc
