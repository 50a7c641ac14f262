-- ===== src/Ws/Connection.antt =====
-- src/server/ws/connection.h and connection.cpp. What a connection does to the outside, the bytes
-- it writes and the messages it hands on, goes to a world `W` through two functions of a `Peer`;
-- `printf` and the destructor are left out.
pub mod Write
pub mod Frames
pub mod Read
pub mod Stream
pub mod Keeps
mod Tests
use pong_pp.Common.{
  ℕ, zero, suc, Bool, true, false, not, ◌||◌, Option, none, some, List, [], ◌++◌, length,
  if◌then◌else◌,
}
use pong_pp.Ws.Frame.{
  Frame, Op, continuation, text, binary, close, ping, pong, unnamed, ParseResult, parse_frame,
  encode_frame,
}
use pong_pp.Ws.Handshake.{HandshakeResult, process_handshake}

pub data State : Type 0 where
  handshake open_state : State

pub data ReadResult : Type 0 where
  ok err : ReadResult

pub data HandshakePhase : Type 0 where
  need_more bad response_sent : HandshakePhase

pub data FramesPhase : Type 0 where
  need_more bad closed : FramesPhase

-- `Write` on the socket, and the handler of messages if there is one.
pub record Peer (W : Type 0) : Type 0 where
  pub write : List ℕ → W → W
  pub on_message : Option (List ℕ → W → W)

pub record Connection : Type 0 where
  pub state : State
  pub in_buf : List ℕ

-- `Frame f;` before it is filled.
abbrev pub blank_frame : Frame
blank_frame = record { fin = false; opcode = continuation; payload = [] }

is_continuation : Op → Bool
is_continuation continuation = true
is_continuation other = false

-- Each frame takes six bytes or more.
abbrev pub rounds : List ℕ → ℕ
rounds buf = suc (length buf)

module _ {W : Type 0} where
  unfoldable pub deliver : Option (List ℕ → W → W) → List ℕ → W → W
  deliver none payload w = w
  deliver (some on_message) payload w = on_message payload w

  -- switch (f.opcode): a phase to return with, or none to go on.
  pub by_opcode : Peer W → Op → List ℕ → W → Option FramesPhase × W
  by_opcode peer text payload w = (none, deliver peer.on_message payload w)
  by_opcode peer binary payload w = (none, deliver peer.on_message payload w)
  by_opcode peer ping payload w = (none, peer.write (encode_frame pong payload) w)
  by_opcode peer pong payload w = (none, w)
  by_opcode peer close payload w = (some FramesPhase.closed, peer.write (encode_frame close []) w)
  by_opcode peer continuation payload w = (some FramesPhase.bad, w)
  by_opcode peer (unnamed n) payload w = (none, w)

  -- What is done with a frame that was parsed.
  pub on_frame : Peer W → Frame → W → Option FramesPhase × W
  unfolding is_continuation by_opcode
  on_frame peer f w =
      if not f.fin || is_continuation f.opcode
      then (some FramesPhase.bad, w)
      else by_opcode peer f.opcode f.payload w

  -- The rest of a round: return, or go on with the buffer that is left.
  pub after_frame :
      List ℕ
      → (W → Option (FramesPhase × List ℕ × W))
      → Option FramesPhase × W
      → Option (FramesPhase × List ℕ × W)
  after_frame buf go_on (some phase, w) = some (phase, buf, w)
  after_frame buf go_on (none, w) = go_on w

  pub after_parse :
      Peer W
      → (List ℕ → W → Option (FramesPhase × List ℕ × W))
      → W
      → ParseResult × List ℕ × Frame
      → Option (FramesPhase × List ℕ × W)
  after_parse peer go_on w (ParseResult.need_more, buf, f) = some (FramesPhase.need_more, buf, w)
  after_parse peer go_on w (ParseResult.bad, buf, f) = some (FramesPhase.bad, buf, w)
  after_parse peer go_on w (ParseResult.got, buf, f) =
      after_frame buf (go_on buf) (on_frame peer f w)

  -- while (true), with as many rounds as the fuel; `none` means that they were not enough.
  pub handle_frames : ℕ → Peer W → List ℕ → W → Option (FramesPhase × List ℕ × W)
  handle_frames zero peer buf w = none
  handle_frames (suc fuel) peer buf w =
      after_parse peer (handle_frames fuel peer) w (parse_frame buf blank_frame)

  pub respond : Peer W → W → HandshakeResult × List ℕ × List ℕ → HandshakePhase × List ℕ × W
  respond peer w (HandshakeResult.need_more, buf, response) = (HandshakePhase.need_more, buf, w)
  respond peer w (HandshakeResult.bad, buf, response) = (HandshakePhase.bad, buf, w)
  respond peer w (HandshakeResult.not_upgrade, buf, response) =
      (HandshakePhase.bad, buf, peer.write response w)
  respond peer w (HandshakeResult.done, buf, response) =
      (HandshakePhase.response_sent, buf, peer.write response w)

  pub handle_handshake : Peer W → List ℕ → W → HandshakePhase × List ℕ × W
  unfolding respond
  handle_handshake peer buf w = respond peer w (process_handshake buf [])

  pub after_handshake : HandshakePhase × List ℕ × W → ReadResult × Connection × W
  after_handshake (HandshakePhase.need_more, buf, w) =
      (ok, record { state = handshake; in_buf = buf }, w)
  after_handshake (HandshakePhase.bad, buf, w) =
      (err, record { state = handshake; in_buf = buf }, w)
  after_handshake (HandshakePhase.response_sent, buf, w) =
      (ok, record { state = open_state; in_buf = buf }, w)

  pub after_frames : FramesPhase × List ℕ × W → ReadResult × Connection × W
  after_frames (FramesPhase.need_more, buf, w) =
      (ok, record { state = open_state; in_buf = buf }, w)
  after_frames (FramesPhase.bad, buf, w) = (err, record { state = open_state; in_buf = buf }, w)
  after_frames (FramesPhase.closed, buf, w) = (err, record { state = open_state; in_buf = buf }, w)

  pub by_state : State → Peer W → List ℕ → W → Option (ReadResult × Connection × W)
  unfolding after_handshake after_frames
  by_state handshake peer buf w = some (after_handshake (handle_handshake peer buf w))
  by_state open_state peer buf w = elim (handle_frames (rounds buf) peer buf w) [
    | none ↦ none
    | some result ↦ some (after_frames result)
  ]

  -- `Read`, given what `::read` returns: `none` for 0 or an error, or the bytes that came in, which
  -- are from 1 to 4096 in the source and any list here.
  unfoldable pub read :
      Peer W → Option (List ℕ) → Connection → W → Option (ReadResult × Connection × W)
  read peer none c w = some (err, c, w)
  read peer (some bytes) c w = by_state c.state peer (c.in_buf ++ bytes) w
