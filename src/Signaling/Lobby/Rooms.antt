-- ===== src/Signaling/Lobby/Rooms.antt =====
-- The rooms of the lobby when one is opened or entered, and when its player is gone.
use pong_pp.Common.{
  ℕ, ◌≡◌, refl, ◌∙◌, ap, sym, subst, true, false, ◌⊎◌, inl, inr, Option, none, some, List, ◌≢◌,
  arith,
}
use pong_pp.Signaling.State.{Server, mem, expired, send}
use pong_pp.Signaling.Rooms.{
  find_room, notify, enter_as_guest, make_room, enter_as_host, unregister,
}
use pong_pp.Signaling.Player.{cleanup}
use pong_pp.Signaling.Broadcast.{notify_lem, mem-remove, mem-remove_other}
use pong_pp.Signaling.Session.{here, elsewhere, opened}
use pong_pp.Signaling.Relay.{same, differ}
use pong_pp.Signaling.Tidy.{IsListed, IsInside, IsTidy}
use pong_pp.Signaling.Tidy.Join.{kept_code}
use pong_pp.Signaling.Tidy.Leave.{IsPutOut, without_room}
use pong_pp.Signaling.Tidy.Gone.{cleanup_cases}
use pong_pp.Signaling.Lobby.{LobbyStep, departure, parts, code_of, lobby, Moved}

pub send-lobby : (p : ℕ) (msg : List ℕ) (s : Server) → lobby (send p msg s) ≡ lobby s
unfolding send
send-lobby p msg s = refl

pub notify-lobby : (s : Server) → lobby (notify s) ≡ lobby s
notify-lobby s = rw (notify_lem s) refl

-- The room of a code is one, and in the table.
pub room-listed :
    (s : Server) (x c : ℕ)
    → IsTidy s
    → (lobby s).room x ≡ some c
    → (a : ℕ) × (s.room_of x ≡ some a) × (find_room c s.rooms ≡ some a)
unfolding IsTidy IsInside
room-listed s x c tidy e = go (s.room_of x) refl e
  where
    go :
        (w : Option ℕ)
        → s.room_of x ≡ w
        → code_of s w ≡ some c
        → (a : ℕ) × (s.room_of x ≡ some a) × (find_room c s.rooms ≡ some a)
    go none e e' = cc
    go (some a) e e' =
        let (lives, place, listed) = tidy.1 x a e in
        let code : (s.heap a).code ≡ c = cc in
        (a, e, ap (λ d. find_room d s.rooms) (sym code) ∙ listed)

-- Where the codes of the rooms that players are in stay the same, so do the rooms.
pub same_code :
    (s s' : Server) (x : ℕ)
    → s'.room_of x ≡ s.room_of x
    → ((a : ℕ) → s.room_of x ≡ some a → (s'.heap a).code ≡ (s.heap a).code)
    → (lobby s').room x ≡ (lobby s).room x
same_code s s' x e kept = ap (code_of s') e ∙ go (s.room_of x) refl
  where
    go : (w : Option ℕ) → s.room_of x ≡ w → code_of s' w ≡ code_of s w
    go none e = refl
    go (some a) e = ap some (kept a e)

pub opened-Moved :
    (s : Server) (p : ℕ) → IsTidy s → Moved p (some s.next_code) (lobby s) (lobby (opened p s))
unfolding enter_as_host make_room IsTidy IsInside IsListed
opened-Moved s p tidy = (
  ap (code_of (opened p s)) (here s.room_of p (some s.next_address))
      ∙ ap some (rw (same s.next_address) refl),
  λ x other.
      same_code s (opened p s) x (elsewhere s.room_of p x (some s.next_address) other) (λ a e.
        let (lives, place, listed) = tidy.1 x a e in
        let (bound, code, below, host, guest) = tidy.0 (s.heap a).code a listed in
        let old : s.next_address ≢ a = omega arith in rw (differ s.next_address a old) refl),
)

pub joined-Moved :
    (s : Server) (p c a : ℕ)
    → IsTidy s
    → find_room c s.rooms ≡ some a
    → Moved p (some c) (lobby s) (lobby (enter_as_guest p a s))
unfolding IsTidy IsListed enter_as_guest
joined-Moved s p c a tidy found = (
  ap (code_of (enter_as_guest p a s)) (here s.room_of p (some a))
      ∙ ap some (kept_code s p a a ∙ (tidy.0 c a found).1),
  λ x other.
      same_code s (enter_as_guest p a s) x (elsewhere s.room_of p x (some a) other)
        (λ b e. kept_code s p a b),
)

one_value : {w : Option ℕ} {x y : ℕ} → w ≡ some x → w ≡ some y → x ≡ y
one_value e e' = cc

-- The host of a room without a living guest is alone in it.
pub host_alone :
    (s : Server) (c a h : ℕ)
    → IsTidy s
    → find_room c s.rooms ≡ some a
    → expired s (s.heap a).guest ≡ true
    → (s.heap a).host ≡ some h
    → (x : ℕ) → (lobby s).room x ≡ some c
    → x ≡ h
unfolding IsTidy IsInside
host_alone s c a h tidy found free host x e =
    let (b, there, found') = room-listed s x c tidy e in
    let (lives, place, listed) = tidy.1 x b there in
    go lives (
      subst (λ r. ((s.heap r).host ≡ some x) ⊎ ((s.heap r).guest ≡ some x)) (one_value found' found)
        place)
  where
    go : mem x s.players ≡ true → ((s.heap a).host ≡ some x) ⊎ ((s.heap a).guest ≡ some x) → x ≡ h
    go lives (inl e) = one_value e host
    go lives (inr e) = absurd (
        let taken : expired s (some x) ≡ true = ap (expired s) (sym e) ∙ free in
        let living : expired s (some x) ≡ false = rw lives refl in cc)

none_or_some : (w : Option ℕ) → (w ≡ none) ⊎ ((b : ℕ) × (w ≡ some b))
none_or_some none = inl refl
none_or_some (some b) = inr (b, refl)

-- A room is given up.
pub put_out-parts :
    (s : Server) (a p : ℕ) (room_of : ℕ → Option ℕ)
    → IsTidy s
    → s.room_of p ≡ some a
    → mem p s.players ≡ true
    → IsPutOut s a p room_of
    → LobbyStep (departure p) (lobby s) (lobby (without_room a p room_of s))
unfolding IsPutOut
put_out-parts s a p room_of tidy inside alive (out, kept) =
    parts p alive (mem-remove p s.players)
      (λ x other. mem-remove_other x p s.players (λ e. other (sym e)))
      (nowhere p (λ b was. (out p b was).2 refl))
      (λ x c ep ex.
        nowhere x (λ b was. (out x b was).1 (one_value (out x b was).0 (together x c ep ex))))
      (λ x other apart. elim (none_or_some (s.room_of x)) [
        | inl e ↦
            nowhere x (λ b was. absurd (let still : s.room_of x ≡ some b = (out x b was).0 in cc))
            ∙ sym (ap (code_of s) e)
        | inr (b, e) ↦
            same_code s (without_room a p room_of s) x
              (kept x b e (λ eq.
                  apart (s.heap a).code (ap (code_of s) inside) (ap (code_of s) (e ∙ ap some eq)))
                ∙ sym e)
              (λ b e. refl)
      ])
  where
    nowhere :
        (x : ℕ)
        → ((b : ℕ) → room_of x ≡ some b → ⊥)
        → code_of (without_room a p room_of s) (room_of x) ≡ none
    nowhere x out_of = elim (none_or_some (room_of x)) [
      | inl e ↦ ap (code_of (without_room a p room_of s)) e
      | inr (b, e) ↦ absurd (out_of b e)
    ]

    together :
        (x c : ℕ) → (lobby s).room p ≡ some c → (lobby s).room x ≡ some c → s.room_of x ≡ some a
    together x c ep ex =
        let (b, there, found) = room-listed s x c tidy ex in
        let (d, there', found') = room-listed s p c tidy ep in
        there ∙ ap some (one_value found found' ∙ one_value there' inside)

-- A player in no room is gone.
outside-parts :
    (s : Server) (p : ℕ)
    → s.room_of p ≡ none
    → mem p s.players ≡ true
    → LobbyStep (departure p) (lobby s) (lobby (unregister p s))
unfolding unregister
outside-parts s p e alive =
    parts p alive (mem-remove p s.players)
      (λ x other. mem-remove_other x p s.players (λ e. other (sym e)))
      (ap (code_of (unregister p s)) e)
      (λ x c ep ex. absurd (let nowhere : code_of s (s.room_of p) ≡ none = ap (code_of s) e in cc))
      (λ x other apart. same_code s (unregister p s) x refl (λ b e. refl))

-- The connection of a player ends.
pub cleanup-parts :
    (s : Server) (p : ℕ)
    → IsTidy s
    → mem p s.players ≡ true
    → LobbyStep (departure p) (lobby s) (lobby (cleanup p s))
cleanup-parts s p tidy alive =
    cleanup_cases (λ t. LobbyStep (departure p) (lobby s) (lobby t)) s p tidy
      (λ e. outside-parts s p e alive)
      (λ a room_of sent e put_out. put_out-parts s a p room_of tidy e alive put_out)
