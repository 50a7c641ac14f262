-- ===== src/Server/Keeps.antt =====
-- src/server/signaling: which players there are, and that no operation but `Register` and `Cleanup`
-- changes that.
use pong_pp.Common.{
  ℕ, ◌≡◌, refl, ◌∙◌, ap, Option, none, some, List, ◌++◌, codes, bytes_eq, if_either, if◌then◌else◌,
  ◌==◌, not,
}
use pong_pp.Ws.Connection.{Connection, read, deliver}
use pong_pp.Ws.Connection.Keeps.{world_of, read_keeps}
use pong_pp.Signaling.State.{Server, send, lock, expired, is_none}
use pong_pp.Signaling.Text.{trim_end, split_verb, parse_code}
use pong_pp.Signaling.Verb
use pong_pp.Signaling.Rooms.{
  find_room, erase, remove, notify, new_room, join_room, enter_as_host, enter_as_guest, make_room,
  delete_room, leave_room, unregister,
}
use pong_pp.Signaling.Player.{
  other_player, handle_create, tell_host, another, answer_join, handle_join, handle_relay, peer_of,
  dispatch, on_message, release_peer, leave_for_good, cleanup,
}
use pong_pp.Signaling.Broadcast.{notify_lem}
use pong_pp.Server.{player_peer}

notify_same : (s : Server) → (notify s).players ≡ s.players
notify_same s = ap (λ x. x.players) (notify_lem s)

handle_create_same : (p : ℕ) (s : Server) → (handle_create p s).players ≡ s.players
unfolding handle_create send new_room enter_as_host make_room
handle_create_same p s = notify_same (enter_as_host p s.next_address (make_room s))

tell_host_same : (h : Option ℕ) (s : Server) → (tell_host h s).players ≡ s.players
unfolding tell_host send
tell_host_same none s = refl
tell_host_same (some h) s = refl

answer_join_same : (p : ℕ) (r : Option ℕ × Server) → (answer_join p r).players ≡ r.1.players
unfolding answer_join send
answer_join_same p (none, s) = refl
answer_join_same p (some a, s) = tell_host_same (another p (lock s (s.heap a).host)) s

join_room_same : (code p : ℕ) (s : Server) → (join_room code p s).1.players ≡ s.players
unfolding join_room enter_as_guest
join_room_same code p s = go (find_room code s.rooms)
  where
    go :
        (r : Option ℕ)
        → (elim r as (λ x. Option ℕ × Server) [
          | none ↦ (none, s)
          | some a ↦
              if not (expired s (s.heap a).guest)
              then (none, s)
              else (some a, notify (enter_as_guest p a s))
        ]).1.players
          ≡ s.players
    go none = refl
    go (some a) =
        if_either (λ (x : Option ℕ × Server). x.1.players ≡ s.players)
          (not (expired s (s.heap a).guest)) refl (notify_same (enter_as_guest p a s))

handle_join_same : (p : ℕ) (body : List ℕ) (s : Server) → (handle_join p body s).players ≡ s.players
unfolding handle_join
handle_join_same p body s =
    answer_join_same p (if parse_code body == 0 then (none, s) else join_room (parse_code body) p s)
    ∙ if_either (λ (x : Option ℕ × Server). x.1.players ≡ s.players) (parse_code body == 0) refl
        (join_room_same (parse_code body) p s)

handle_relay_same :
    (p : ℕ) (body : List ℕ) (s : Server) → (handle_relay p body s).players ≡ s.players
unfolding handle_relay send
handle_relay_same p body s = go (peer_of p s (s.room_of p))
  where
    go :
        (r : Option ℕ)
        → (elim r as (λ x. Server) [
          | none ↦ send p (Verb.error ++ codes " not_in_room") s
          | some peer ↦ send peer (Verb.relay ++ codes " " ++ body) s
        ]).players
          ≡ s.players
    go none = refl
    go (some q) = refl

pub on_message_same : (p : ℕ) (msg : List ℕ) (s : Server) → (on_message p msg s).players ≡ s.players
unfolding on_message dispatch send
on_message_same p msg s =
    let (v, body) = split_verb (trim_end msg) in
    if_either same (bytes_eq v Verb.list) refl (
      if_either same (bytes_eq v Verb.create) (handle_create_same p s) (
        if_either same (bytes_eq v Verb.join) (handle_join_same p body s)
          (if_either same (bytes_eq v Verb.relay) (handle_relay_same p body s) refl)))
  where
    same : Server → Type 0
    same x = x.players ≡ s.players

-- The players after a read are those before it.
pub read_same :
    (p : ℕ) (input : Option (List ℕ)) (c : Connection) (s : Server)
    → (world_of s (read (player_peer p) input c s)).players ≡ s.players
unfolding player_peer deliver
read_same p input c s =
    read_keeps (player_peer p) (λ x. x.players ≡ s.players) (λ bytes w h. h)
      (λ payload w h. on_message_same p payload w ∙ h) input c s refl

release_peer_same : (q : Option ℕ) (s : Server) → (release_peer q s).players ≡ s.players
unfolding release_peer send leave_room
release_peer_same none s = refl
release_peer_same (some q) s = refl

delete_room_same : (code : ℕ) (s : Server) → (delete_room code s).players ≡ s.players
unfolding delete_room
delete_room_same code s =
    if_either (λ (x : Server). x.players ≡ s.players) (is_none (find_room code s.rooms)) refl
      (notify_same (record s { rooms = erase code s.rooms }))

leave_for_good_same :
    (p : ℕ) (r : Option ℕ) (s : Server) → (leave_for_good p r s).players ≡ s.players
unfolding leave_for_good leave_room
leave_for_good_same p none s = refl
leave_for_good_same p (some a) s =
    delete_room_same ((release_peer (other_player s (s.heap a) p) s).heap a).code
      (release_peer (other_player s (s.heap a) p) s)
    ∙ release_peer_same (other_player s (s.heap a) p) s

-- `Cleanup` takes its player off.
pub cleanup_lem : (p : ℕ) (s : Server) → (cleanup p s).players ≡ remove p s.players
unfolding cleanup unregister
cleanup_lem p s = ap (remove p) (leave_for_good_same p (s.room_of p) s)
