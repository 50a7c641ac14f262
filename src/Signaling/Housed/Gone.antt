-- ===== src/Signaling/Housed/Gone.antt =====
-- The connection of any player ends; and what follows of who shares a room.
use pong_pp.Common.{
  ℕ, ◌≡◌, refl, ◌∙◌, ap, sym, ◌⊎◌, inl, inr, Bool-cases, Option, none, some, if_either, arith,
}
use pong_pp.Signaling.State.{Server, mem, is_none}
use pong_pp.Signaling.Rooms.{find_room, erase, delete_room, leave_room, unregister, register}
use pong_pp.Signaling.Player.{other_player, release_peer, leave_for_good, cleanup}
use pong_pp.Signaling.Broadcast.{mem-remove_other}
use pong_pp.Signaling.Session.{here}
use pong_pp.Signaling.Housed.{IsHoused, leave_room-IsHoused, erased-IsHoused}
use pong_pp.Signaling.Housed.Say.{send-IsHoused, notify-IsHoused}

release_peer-IsHoused : (w : Option ℕ) (s : Server) → IsHoused s → IsHoused (release_peer w s)
unfolding release_peer
release_peer-IsHoused none s h = h
release_peer-IsHoused (some q) s h = send-IsHoused q _ (leave_room q s) (leave_room-IsHoused q s h)

delete_room-IsHoused : (code : ℕ) (s : Server) → IsHoused s → IsHoused (delete_room code s)
unfolding delete_room
delete_room-IsHoused code s h =
    if_either IsHoused (is_none (find_room code s.rooms)) h
      (notify-IsHoused (record s { rooms = erase code s.rooms }) (erased-IsHoused code s h))

leave_for_good-IsHoused :
    (p : ℕ) (w : Option ℕ) (s : Server) → IsHoused s → IsHoused (leave_for_good p w s)
unfolding leave_for_good
leave_for_good-IsHoused p none s h = h
leave_for_good-IsHoused p (some a) s h =
    let s' = release_peer (other_player s (s.heap a) p) s in
    leave_room-IsHoused p (delete_room (s'.heap a).code s')
      (delete_room-IsHoused (s'.heap a).code s' (release_peer-IsHoused _ s h))

left_for_good :
    (p : ℕ) (w : Option ℕ) (s : Server) → s.room_of p ≡ w → (leave_for_good p w s).room_of p ≡ none
unfolding leave_for_good leave_room
left_for_good p none s e = e
left_for_good p (some a) s e =
    let s' = release_peer (other_player s (s.heap a) p) s in
    here (delete_room (s'.heap a).code s').room_of p none

unregister-IsHoused :
    (p : ℕ) (s : Server) → IsHoused s → s.room_of p ≡ none → IsHoused (unregister p s)
unfolding IsHoused unregister
unregister-IsHoused p s (listed, made, alive, place) out = (
  listed,
  made,
  λ q a e.
      mem-remove_other q p s.players
        (λ same. absurd (let there : s.room_of p ≡ some a = ap s.room_of (sym same) ∙ e in cc))
      ∙ alive q a e,
  place,
)

pub cleanup-IsHoused : (p : ℕ) (s : Server) → IsHoused s → IsHoused (cleanup p s)
unfolding cleanup
cleanup-IsHoused p s h =
    unregister-IsHoused p (leave_for_good p (s.room_of p) s)
      (leave_for_good-IsHoused p (s.room_of p) s h) (left_for_good p (s.room_of p) s refl)

pub register-IsHoused : (p : ℕ) (s : Server) → IsHoused s → IsHoused (register p s)
unfolding IsHoused register
register-IsHoused p s (listed, made, alive, place) = elim (Bool-cases (mem p s.players)) [
  | inl there ↦ rw there (listed, made, alive, place)
  | inr new ↦ rw new (listed, made, (λ q a e. let lives = alive q a e in ground arith), place)
]

-- Of three players in a room two are the same.
pub at_most_two :
    (s : Server) (a p q r : ℕ)
    → IsHoused s
    → s.room_of p ≡ some a
    → s.room_of q ≡ some a
    → s.room_of r ≡ some a
    → (p ≡ q) ⊎ ((p ≡ r) ⊎ (q ≡ r))
unfolding IsHoused
at_most_two s a p q r h in_p in_q in_r = go (h.3 p a in_p) (h.3 q a in_q) (h.3 r a in_r)
  where
    one : {w : Option ℕ} {x y : ℕ} → w ≡ some x → w ≡ some y → x ≡ y
    one e e' = cc

    go :
        ((s.heap a).host ≡ some p) ⊎ ((s.heap a).guest ≡ some p)
        → ((s.heap a).host ≡ some q) ⊎ ((s.heap a).guest ≡ some q)
        → ((s.heap a).host ≡ some r) ⊎ ((s.heap a).guest ≡ some r)
        → (p ≡ q) ⊎ ((p ≡ r) ⊎ (q ≡ r))
    go (inl e) (inl e') f = inl (one e e')
    go (inr e) (inr e') f = inl (one e e')
    go (inl e) (inr e') (inl f) = inr (inl (one e f))
    go (inl e) (inr e') (inr f) = inr (inr (one e' f))
    go (inr e) (inl e') (inl f) = inr (inr (one e' f))
    go (inr e) (inl e') (inr f) = inr (inl (one e f))
