-- ===== src/Ws/Connection/Keeps.antt =====
-- What the writes and the handler of messages keep, `Read` keeps.
use pong_pp.Common.{
  ℕ, zero, suc, Option, none, some, List, [], ◌++◌, subst, sym, if_either, not, ◌||◌,
}
use pong_pp.Ws.Frame.{
  Frame, Op, continuation, text, binary, close, ping, pong, unnamed, ParseResult, parse_frame,
}
use pong_pp.Ws.Connection.Read.{finished, open_lem}
use pong_pp.Ws.Handshake.{HandshakeResult, process_handshake}
use pong_pp.Ws.Connection.{
  State, handshake, open_state, FramesPhase, Peer, Connection, blank_frame, is_continuation,
  deliver, by_opcode, on_frame, after_frame, after_parse, handle_frames, rounds, respond,
  handle_handshake, after_handshake, after_frames, by_state, read,
}

abbrev pub world_of : {A B W : Type 0} → W → Option (A × B × W) → W
world_of w none = w
world_of w (some (a, b, w')) = w'

module _ {κ} {W : Type 0} (peer : Peer W) (P : W → Type κ)
    (writes : (bytes : List ℕ) (w : W) → P w → P (peer.write bytes w))
    (hands_on : (payload : List ℕ) (w : W) → P w → P (deliver peer.on_message payload w)) where
  by_opcode_keeps : (op : Op) (payload : List ℕ) (w : W) → P w → P (by_opcode peer op payload w).1
  unfolding by_opcode
  by_opcode_keeps text payload w h = hands_on payload w h
  by_opcode_keeps binary payload w h = hands_on payload w h
  by_opcode_keeps ping payload w h = writes _ w h
  by_opcode_keeps pong payload w h = h
  by_opcode_keeps close payload w h = writes _ w h
  by_opcode_keeps continuation payload w h = h
  by_opcode_keeps (unnamed n) payload w h = h

  on_frame_keeps : (f : Frame) (w : W) → P w → P (on_frame peer f w).1
  unfolding on_frame
  on_frame_keeps f w h =
      if_either (λ (x : Option FramesPhase × W). P x.1) (not f.fin || is_continuation f.opcode) h
        (by_opcode_keeps f.opcode f.payload w h)

  after_parse_keeps :
      (go_on : List ℕ → W → Option (FramesPhase × List ℕ × W)) (w : W)
      → ((buf : List ℕ) (w' : W) → P w' → P (world_of w' (go_on buf w')))
      → (r : ParseResult × List ℕ × Frame) → P w
      → P (world_of w (after_parse peer go_on w r))
  unfolding after_parse after_frame
  after_parse_keeps go_on w rest (ParseResult.need_more, buf, f) h = h
  after_parse_keeps go_on w rest (ParseResult.bad, buf, f) h = h
  after_parse_keeps go_on w rest (ParseResult.got, buf, f) h =
      go (on_frame peer f w) (on_frame_keeps f w h)
    where
      ran : (w' : W) (r : Option (FramesPhase × List ℕ × W)) → P (world_of w' r) → P (world_of w r)
      ran w' none h' = h
      ran w' (some (phase, left, w'')) h' = h'

      go : (a : Option FramesPhase × W) → P a.1 → P (world_of w (after_frame buf (go_on buf) a))
      go (some phase, w') h' = h'
      go (none, w') h' = ran w' (go_on buf w') (rest buf w' h')

  handle_frames_keeps :
      (fuel : ℕ) (buf : List ℕ) (w : W) → P w → P (world_of w (handle_frames fuel peer buf w))
  unfolding handle_frames
  handle_frames_keeps zero buf w h = h
  handle_frames_keeps (suc fuel) buf w h =
      after_parse_keeps (handle_frames fuel peer) w (handle_frames_keeps fuel)
        (parse_frame buf blank_frame) h

  respond_keeps :
      (w : W) (r : HandshakeResult × List ℕ × List ℕ)
      → P w
      → P (after_handshake (respond peer w r)).2
  unfolding respond after_handshake
  respond_keeps w (HandshakeResult.need_more, buf, response) h = h
  respond_keeps w (HandshakeResult.bad, buf, response) h = h
  respond_keeps w (HandshakeResult.not_upgrade, buf, response) h = writes response w h
  respond_keeps w (HandshakeResult.done, buf, response) h = writes response w h

  by_state_keeps :
      (state : State) (buf : List ℕ) (w : W) → P w → P (world_of w (by_state state peer buf w))
  unfolding by_state handle_handshake after_frames
  by_state_keeps handshake buf w h = respond_keeps w (process_handshake buf []) h
  by_state_keeps open_state buf w h =
      subst (λ r. P (world_of w r)) (sym (open_lem peer buf w))
        (go (handle_frames (rounds buf) peer buf w) (handle_frames_keeps (rounds buf) buf w h))
    where
      go :
          (r : Option (FramesPhase × List ℕ × W))
          → P (world_of w r)
          → P (world_of w (finished peer r))
      go none h' = h'
      go (some (FramesPhase.need_more, buf', w')) h' = h'
      go (some (FramesPhase.bad, buf', w')) h' = h'
      go (some (FramesPhase.closed, buf', w')) h' = h'

  pub read_keeps :
      (input : Option (List ℕ)) (c : Connection) (w : W)
      → P w
      → P (world_of w (read peer input c w))
  unfolding read
  read_keeps none c w h = h
  read_keeps (some bytes) c w h = by_state_keeps c.state (c.in_buf ++ bytes) w h
