-- ===== src/Signaling/Lobby/Open.antt =====
-- src/server/signaling/rooms.cpp, `Rooms::JoinableCodes`: the codes that are sent out as open.
use pong_pp.Common.{
  ℕ, ◌≡◌, refl, ◌∙◌, ap, sym, Bool, true, false, inl, inr, Bool-cases, Option, none, some, List, [],
  ◌∷◌, ◌==◌, ◌⊎◌, arith, if_either, if◌then◌else◌,
}
use pong_pp.Signaling.State.{Server, mem, expired, send}
use pong_pp.Signaling.Rooms.{
  find_room, emplace, erase, enter_as_guest, enter_as_host, make_room, register, unregister,
  joinable_codes,
}
use pong_pp.Signaling.Broadcast.{notify_lem, find_room-erase, find_room-erase_other}
use pong_pp.Signaling.Cases.{message_cases}
use pong_pp.Signaling.Tidy.{Waiting, IsListed, IsTidy}
use pong_pp.Signaling.Tidy.Enter.{next_code_unused}
use pong_pp.Signaling.Tidy.Gone.{cleanup_cases}
use pong_pp.Signaling.Tidy.Reach.{
  Reachable, start, next, connects, says, leaves, Reachable-IsTidy, was_listed, joins_list,
}
use pong_pp.Signaling.Lobby.{Lobby, lobby, code_of}
use pong_pp.Signaling.Lobby.Rooms.{room-listed, host_alone}
use pong_pp.Signaling.Lobby.Paired.{HasTwo, IsPaired, Reachable-IsPaired}

-- No code has two entries.
unfoldable pub Distinct : List (ℕ × ℕ) → Type 0
Distinct [] = Unit {0}
Distinct ((c, a) ∷ rooms) = (find_room c rooms ≡ none) × Distinct rooms

emplace-Distinct :
    (c a : ℕ) (rooms : List (ℕ × ℕ))
    → find_room c rooms ≡ none
    → Distinct rooms
    → Distinct (emplace c a rooms)
unfolding emplace Distinct
emplace-Distinct c a rooms fresh all = rw (emplace, fresh) (fresh, all)

still_missing :
    (c d : ℕ) (rooms : List (ℕ × ℕ)) → find_room c rooms ≡ none → find_room c (erase d rooms) ≡ none
still_missing c d rooms e = elim (Bool-cases (c == d)) [
  | inl this ↦
      let eq : c ≡ d = ground arith in
      ap (λ x. find_room x (erase d rooms)) eq ∙ find_room-erase d rooms
  | inr other ↦ find_room-erase_other c d rooms (ground arith) ∙ e
]

erase-Distinct : (d : ℕ) (rooms : List (ℕ × ℕ)) → Distinct rooms → Distinct (erase d rooms)
unfolding erase Distinct
erase-Distinct d [] all = all
erase-Distinct d ((c, a) ∷ rooms) (fresh, all) = elim (Bool-cases (d == c)) [
  | inl this ↦ rw this (erase-Distinct d rooms all)
  | inr other ↦ rw other (still_missing c d rooms fresh, erase-Distinct d rooms all)
]

unfoldable HasDistinct : Server → Type 0
HasDistinct s = Distinct s.rooms

Reachable-HasDistinct : {s : Server} → Reachable s → HasDistinct s
unfolding HasDistinct Distinct register unregister send enter_as_guest enter_as_host make_room
Reachable-HasDistinct start = tt
Reachable-HasDistinct (next {s} before (connects p new)) =
    if_either (λ (t : Server). Distinct t.rooms) (mem p s.players) (Reachable-HasDistinct before)
      (Reachable-HasDistinct before)
Reachable-HasDistinct (next {s} before (says p msg alive small may)) =
    let distinct = Reachable-HasDistinct before in
    message_cases HasDistinct (λ q text t h. h) (λ t h. rw (notify_lem t) h) p msg s distinct
      (λ e.
        emplace-Distinct s.next_code s.next_address s.rooms
          (next_code_unused s (Reachable-IsTidy before)) distinct)
      (λ e c a found free. distinct)
Reachable-HasDistinct (next {s} before (leaves p alive)) =
    cleanup_cases HasDistinct s p (Reachable-IsTidy before) (λ e. Reachable-HasDistinct before)
      (λ a room_of sent e put_out.
        erase-Distinct (s.heap a).code s.rooms (Reachable-HasDistinct before))

-- A code that is sent out is that of an entry of the table without a living guest.
listed_code :
    (s : Server) (c : ℕ) (rooms : List (ℕ × ℕ))
    → Distinct rooms
    → mem c (joinable_codes s rooms) ≡ true
    → (a : ℕ) × (find_room c rooms ≡ some a) × (expired s (s.heap a).guest ≡ true)
unfolding joinable_codes find_room Distinct
listed_code s c [] all e = cc
listed_code s c ((d, a) ∷ rooms) (fresh, all) e = elim (Bool-cases (c == d)) [
  | inl this ↦ first (expired s (s.heap a).guest) this refl e (λ e. listed_code s c rooms all e)
  | inr other ↦
      let (b, found, free) =
        listed_code s c rooms all (skip (expired s (s.heap a).guest) other e) in
      (b, rw other found, free)
]
  where
    first :
        (t : Bool)
        → (c == d) ≡ true
        → expired s (s.heap a).guest ≡ t
        → mem c (if t then d ∷ joinable_codes s rooms else joinable_codes s rooms) ≡ true
        → (mem c (joinable_codes s rooms) ≡ true
            → (b : ℕ) × (find_room c rooms ≡ some b) × (expired s (s.heap b).guest ≡ true))
        → (b : ℕ) × (find_room c ((d, a) ∷ rooms) ≡ some b) × (expired s (s.heap b).guest ≡ true)
    first true this free e rest = (a, rw this refl, free)
    first false this full e rest =
        let (b, found, free) = rest e in
        let eq : c ≡ d = ground arith in
        absurd
          (let missing : find_room c rooms ≡ none = ap (λ x. find_room x rooms) eq ∙ fresh in cc)

    skip :
        (t : Bool)
        → (c == d) ≡ false
        → mem c (if t then d ∷ joinable_codes s rooms else joinable_codes s rooms) ≡ true
        → mem c (joinable_codes s rooms) ≡ true
    skip false other e = e
    skip true other e = was_listed c d (joinable_codes s rooms) (ground arith) e

code_listed :
    (s : Server) (c a : ℕ) (rooms : List (ℕ × ℕ))
    → find_room c rooms ≡ some a
    → expired s (s.heap a).guest ≡ true
    → mem c (joinable_codes s rooms) ≡ true
unfolding joinable_codes find_room
code_listed s c a [] e free = cc
code_listed s c a ((d, b) ∷ rooms) e free = elim (Bool-cases (c == d)) [
  | inl this ↦
      let head : find_room c ((d, b) ∷ rooms) ≡ some b = rw this refl in
      let eq : b ≡ a = cc in
      let open_one : expired s (s.heap b).guest ≡ true =
        ap (λ r. expired s (s.heap r).guest) eq ∙ free in
      rw (open_one, this) refl
  | inr other ↦ later (expired s (s.heap b).guest) (
      code_listed s c a rooms
        (let same : find_room c ((d, b) ∷ rooms) ≡ find_room c rooms = rw other refl in
          sym same ∙ e)
        free)
]
  where
    later :
        (t : Bool)
        → mem c (joinable_codes s rooms) ≡ true
        → mem c (if t then d ∷ joinable_codes s rooms else joinable_codes s rooms) ≡ true
    later false e = e
    later true e = joins_list c d (joinable_codes s rooms) e

-- One living player is in the room `c` of the lobby, and nobody else.
unfoldable pub Lonely : Lobby → ℕ → Type 0
Lonely l c =
    (h : ℕ) × (l.lives h ≡ true) × (l.room h ≡ some c) × ((x : ℕ) → l.room x ≡ some c → x ≡ h)

room-Lonely :
    (s : Server) (c a : ℕ)
    → IsTidy s
    → find_room c s.rooms ≡ some a
    → expired s (s.heap a).guest ≡ true
    → Lonely (lobby s) c
unfolding Lonely IsTidy IsListed Waiting
room-Lonely s c a tidy found free =
    let (bound, code, below, (h, host, lives, there), guest) = tidy.0 c a found in
    (h, lives, ap (code_of s) there ∙ ap some code, host_alone s c a h tidy found free host)

-- The guest of a lonely player's room is gone, or there is none.
guest_gone :
    (s : Server) (c a h : ℕ)
    → IsTidy s
    → IsPaired s
    → find_room c s.rooms ≡ some a
    → ((x : ℕ) → (lobby s).room x ≡ some c → x ≡ h)
    → expired s (s.heap a).guest ≡ true
unfolding IsTidy IsListed Waiting IsPaired HasTwo
guest_gone s c a h tidy paired found alone = go (s.heap a).guest refl
  where
    go : (w : Option ℕ) → (s.heap a).guest ≡ w → expired s w ≡ true
    go none e = refl
    go (some g) e = elim (Bool-cases (mem g s.players)) [
      | inr gone ↦ rw gone refl
      | inl alive ↦
          let (bound, code, below, (h', host, lives, there), guest) = tidy.0 c a found in
          let host_here = alone h' (ap (code_of s) there ∙ ap some code) in
          let guest_here = alone g (ap (code_of s) (guest g e alive) ∙ ap some code) in
          absurd ((paired.1 c a found).1 h' g host e alive (host_here ∙ sym guest_here))
    ]

-- In every state that is reached while players in a room neither open nor join one, and fewer than
-- 2 ^ 64 rooms are opened, a code is sent out as open exactly if one living player is in the room of
-- that code, and nobody else.
pub joinable_codes-Lonely :
    {s : Server} (c : ℕ)
    → Reachable s
    → ((mem c (joinable_codes s s.rooms) ≡ true) × Lonely (lobby s) c)
      ⊎ ((mem c (joinable_codes s s.rooms) ≡ false) × (¬ Lonely (lobby s) c))
unfolding HasDistinct Lonely
joinable_codes-Lonely {s} c reached =
    let tidy = Reachable-IsTidy reached in
    elim (Bool-cases (mem c (joinable_codes s s.rooms))) [
      | inl open_one ↦
          let (a, found, free) = listed_code s c s.rooms (Reachable-HasDistinct reached) open_one in
          inl (open_one, room-Lonely s c a tidy found free)
      | inr shut ↦ inr (
        shut,
        λ (h, lives, inside, alone).
            let (a, there, found) = room-listed s h c tidy inside in
            let free = guest_gone s c a h tidy (Reachable-IsPaired reached) found alone in
            let listed = code_listed s c a s.rooms found free in cc,
      )
    ]
