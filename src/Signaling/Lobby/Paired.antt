-- ===== src/Signaling/Lobby/Paired.antt =====
-- No room has its host as its guest, and 0 is the code of none.
use pong_pp.Common.{
  ℕ, ◌+◌, ◌^◌, ◌<◌, ◌≡◌, refl, ◌∙◌, ap, sym, subst, true, inl, inr, Bool-cases, Option, none, some,
  List, ◌==◌, ◌≢◌, arith,
}
use pong_pp.Signaling.State.{Server, mem, send}
use pong_pp.Signaling.Rooms.{
  find_room, enter_as_guest, enter_as_host, make_room, notify, register, unregister,
}
use pong_pp.Signaling.Broadcast.{notify_lem}
use pong_pp.Signaling.Session.{opened}
use pong_pp.Signaling.Cases.{message_cases}
use pong_pp.Signaling.Relay.{same, differ}
use pong_pp.Signaling.Tidy.{Waiting, IsListed, IsInside, IsTidy}
use pong_pp.Signaling.Tidy.Enter.{next_code_unused, listed_cases, apart}
use pong_pp.Signaling.Tidy.Leave.{without_room, other_entry, lived}
use pong_pp.Signaling.Tidy.Gone.{cleanup_cases}
use pong_pp.Signaling.Tidy.Say.{MayEnter}
use pong_pp.Signaling.Tidy.Reach.{
  IsNew, Reachable, start, next, connects, says, leaves, empty_server, Reachable-IsTidy, was_listed,
}

-- The host is not its own guest.
unfoldable pub HasTwo : Server → ℕ → Type 0
HasTwo s a =
    (h g : ℕ)
    → (s.heap a).host ≡ some h
    → (s.heap a).guest ≡ some g
    → mem g s.players ≡ true
    → h ≢ g

unfoldable pub IsPaired : Server → Type 0
IsPaired s = (0 < s.next_code) × ((c a : ℕ) → find_room c s.rooms ≡ some a → (0 < c) × HasTwo s a)

send-IsPaired : (p : ℕ) (msg : List ℕ) (s : Server) → IsPaired s → IsPaired (send p msg s)
unfolding IsPaired HasTwo send
send-IsPaired p msg s paired = paired

notify-IsPaired : (s : Server) → IsPaired s → IsPaired (notify s)
unfolding IsPaired HasTwo
notify-IsPaired s paired = rw (notify_lem s) paired

opened-IsPaired :
    (s : Server) (p : ℕ) → IsTidy s → s.next_code + 1 < 2 ^ 64 → IsPaired s → IsPaired (opened p s)
unfolding IsPaired HasTwo IsTidy IsListed enter_as_host make_room
opened-IsPaired s p tidy small (positive, paired) = (
  omega arith,
  λ c a e. elim (listed_cases s c a (next_code_unused s tidy) e) [
    | inl (ec, ea) ↦ (
      omega (arith, ec, positive),
      λ h g host guest lives. absurd (
          let empty : ((opened p s).heap a).guest ≡ none = rw (ea, same s.next_address) refl in cc),
    )
    | inr old ↦
        let (bound, code, below, waiting, guest) = tidy.0 c a old in
        let kept : (opened p s).heap a ≡ s.heap a =
          rw (differ s.next_address a (let new : s.next_address ≢ a = omega arith in new)) refl in
        let (some_code, two) = paired c a old in
        (
          some_code,
          λ h g host guest lives.
              two h g (ap (λ r. r.host) (sym kept) ∙ host) (ap (λ r. r.guest) (sym kept) ∙ guest)
                lives,
        )
  ],
)

joined-IsPaired :
    (s : Server) (p c a : ℕ)
    → IsTidy s
    → find_room c s.rooms ≡ some a
    → s.room_of p ≡ none
    → IsPaired s
    → IsPaired (enter_as_guest p a s)
unfolding IsPaired HasTwo IsTidy IsListed Waiting enter_as_guest
joined-IsPaired s p c a tidy found out (positive, paired) = (
  positive,
  λ d b e. (
    (paired d b e).0,
    elim (Bool-cases (b == a)) [
      | inl this ↦
          let eq : b ≡ a = ground arith in subst (HasTwo (enter_as_guest p a s)) (sym eq) joined
      | inr other ↦
          let kept : (enter_as_guest p a s).heap b ≡ s.heap b = rw other refl in
          λ h g host guest lives.
            (paired d b e).1 h g (ap (λ r. r.host) (sym kept) ∙ host)
              (ap (λ r. r.guest) (sym kept) ∙ guest) lives
    ],
  ),
)
  where
    joined : HasTwo (enter_as_guest p a s) a
    joined h g host guest lives eq =
        let changed : (enter_as_guest p a s).heap a ≡ record (s.heap a) { guest = some p } =
          rw (same a) refl in
        let (bound, code, below, (h', host', lives', there), guest') = tidy.0 c a found in
        let same_host : some h ≡ some h' = sym host ∙ ap (λ r. r.host) changed ∙ host' in
        let same_guest : some g ≡ some p = sym guest ∙ ap (λ r. r.guest) changed in
        let self : p ≡ h' = cc in apart s p h' a out there self

without_room-IsPaired :
    (s : Server) (a p : ℕ) (room_of : ℕ → Option ℕ) (sent : List (ℕ × List ℕ))
    → IsTidy s
    → s.room_of p ≡ some a
    → IsPaired s
    → IsPaired (record (without_room a p room_of s) { sent = sent })
unfolding IsPaired HasTwo IsTidy IsInside
without_room-IsPaired s a p room_of sent tidy inside (positive, paired) = (
  positive,
  λ c b e.
      let (stays, differs, other) = other_entry s a c b tidy (tidy.1 p a inside).2 e in
      let (some_code, two) = paired c b stays in
      (some_code, λ h g host guest lives. two h g host guest (lived g p s.players lives).1),
)

unregister-IsPaired : (s : Server) (p : ℕ) → IsPaired s → IsPaired (unregister p s)
unfolding IsPaired HasTwo unregister
unregister-IsPaired s p (positive, paired) = (
  positive,
  λ c a e.
      let (some_code, two) = paired c a e in
      (some_code, λ h g host guest lives. two h g host guest (lived g p s.players lives).1),
)

register-IsPaired : (p : ℕ) (s : Server) → IsNew p s → IsPaired s → IsPaired (register p s)
unfolding IsPaired HasTwo IsNew register
register-IsPaired p s (absent, out, unnamed) (positive, paired) =
    rw (register, absent)
      (
        positive,
        λ c a e.
            let (some_code, two) = paired c a e in
            (
              some_code,
              λ h g host guest lives.
                  two h g host guest
                    (was_listed g p s.players (λ eq. (unnamed a).1 (guest ∙ ap some eq)) lives),
            ),
      )

empty_server-IsPaired : IsPaired empty_server
unfolding IsPaired find_room
empty_server-IsPaired = (omega arith, λ c a e. absurd cc)

pub Reachable-IsPaired : {s : Server} → Reachable s → IsPaired s
Reachable-IsPaired start = empty_server-IsPaired
Reachable-IsPaired (next {s} before (connects p new)) =
    register-IsPaired p s new (Reachable-IsPaired before)
Reachable-IsPaired (next {s} before (says p msg alive small may)) =
    let tidy = Reachable-IsTidy before in
    let paired = Reachable-IsPaired before in
    message_cases IsPaired send-IsPaired notify-IsPaired p msg s paired
      (λ e. opened-IsPaired s p tidy small paired)
      (λ e c a found free.
        joined-IsPaired s p c a tidy found (unfold MayEnter in may (inr e)) paired)
Reachable-IsPaired (next {s} before (leaves p alive)) =
    let tidy = Reachable-IsTidy before in
    let paired = Reachable-IsPaired before in
    cleanup_cases IsPaired s p tidy (λ e. unregister-IsPaired s p paired)
      (λ a room_of sent e put_out. without_room-IsPaired s a p room_of sent tidy e paired)
