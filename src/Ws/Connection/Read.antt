-- ===== src/Ws/Connection/Read.antt =====
-- `Read`: it returns, the cuts of the stream do not matter, and the messages of a client arrive.
use pong_pp.Common.{
  codes, ℕ, zero, suc, ◌+◌, ◌≤◌, ◌<◌, ◌≡◌, refl, ap, sym, ◌∙◌, true, Option, none, some, List, [],
  ◌∷◌, ◌++◌, length, length-append, arith, All, Option-cases, inl, inr, append_assoc,
}
use pong_pp.Ws.Frame.{text, max_frame_payload}
use pong_pp.Ws.Frame.Stream.{parse_frame-nil, to_op-text}
use pong_pp.Ws.Frame.Client.{client_frame}
use pong_pp.Ws.Frame.RoundTrip.{parse_frame-client_frame}
use pong_pp.Ws.Handshake.{answer}
use pong_pp.Ws.Handshake.Request.{Field, request, IsRequest, lookup_field}
use pong_pp.Ws.Handshake.Replies.{IsSwitching, IsUpgradeRequired, answer-Reply}
use pong_pp.Ws.Handshake.Process.{request_answered}
use pong_pp.Ws.Connection.{
  State, handshake, open_state, ReadResult, ok, err, FramesPhase, Peer, Connection, blank_frame,
  deliver, on_frame, after_frame, after_parse, handle_frames, rounds, respond, handle_handshake,
  after_handshake, after_frames, by_state, read,
}
use pong_pp.Ws.Connection.Frames.{handle_frames-Returns, handle_frames-append, resume}

-- A text message with the key that masks it.
abbrev pub Message : Type 0
Message = ℕ × ℕ × ℕ × ℕ × List ℕ

abbrev pub stream : List Message → List ℕ
stream [] = []
stream ((a, b, c, d, payload) ∷ messages) = client_frame true 1 a b c d payload ++ stream messages

abbrev pub Fits : Message → Type 0
Fits (a, b, c, d, payload) = length payload ≤ max_frame_payload

module _ {W : Type 0} (peer : Peer W) where
  -- `Read` always returns: the loop over the frames ends, whatever came in.
  pub read-Returns :
      (input : Option (List ℕ)) (c : Connection) (w : W)
      → (x : ReadResult × Connection × W) × (read peer input c w ≡ some x)
  unfolding read by_state
  read-Returns none c w = (_, refl)
  read-Returns (some bytes) c w = step c.state
    where
      step :
          (s : State)
          → (x : ReadResult × Connection × W) × (by_state s peer (c.in_buf ++ bytes) w ≡ some x)
      step handshake = (_, refl)
      step open_state =
          let (result, e) =
            handle_frames-Returns peer (rounds (c.in_buf ++ bytes)) (c.in_buf ++ bytes) w
              (omega arith) in
          (after_frames result, rw (by_state, e) refl)

  abbrev pub finished : Option (FramesPhase × List ℕ × W) → Option (ReadResult × Connection × W)
  finished none = none
  finished (some r) = some (after_frames r)

  pub open_lem :
      (buf : List ℕ) (w : W)
      → by_state open_state peer buf w ≡ finished (handle_frames (rounds buf) peer buf w)
  unfolding by_state
  open_lem buf w = elim (Option-cases (handle_frames (rounds buf) peer buf w)) [
    | inl e ↦ rw (by_state, e) refl
    | inr (r, e) ↦ rw (by_state, e) refl
  ]

  resumed :
      (more : List ℕ) (c' : Connection) (w' : W)
      → (r : Option (FramesPhase × List ℕ × W)) → finished r ≡ some (ok, c', w')
      → finished (resume peer more r) ≡ by_state c'.state peer (c'.in_buf ++ more) w'
  unfolding resume after_frames
  resumed more c' w' none e = cc
  resumed more c' w' (some (FramesPhase.need_more, left, w)) e =
      let same_c : record { state = open_state; in_buf = left } ≡ c' = cc in
      let same_w : w ≡ w' = cc in rw (← same_c, ← same_w) (sym (open_lem (left ++ more) w))
  resumed more c' w' (some (FramesPhase.bad, left, w)) e = cc
  resumed more c' w' (some (FramesPhase.closed, left, w)) e = cc

  -- On an open connection two reads do what one read of all the bytes does, if the first of them
  -- succeeds: the same result, the same connection, the same writes and messages.
  pub read-append :
      (c c' : Connection) (w w' : W) (first second : List ℕ)
      → c.state ≡ open_state
      → read peer (some first) c w ≡ some (ok, c', w')
      → read peer (some (first ++ second)) c w ≡ read peer (some second) c' w'
  unfolding read
  read-append c c' w w' first second is_open e =
      rw
        (
          is_open,
          open_lem,
          ← append_assoc c.in_buf first second,
          handle_frames-append peer (rounds buf) (rounds (buf ++ second)) buf second w (omega arith)
              (omega arith),
        )
        (resumed second c' w' (handle_frames (rounds buf) peer buf w)
          (sym (open_lem buf w) ∙ opened))
    where
      buf : List ℕ
      buf = c.in_buf ++ first

      opened : by_state open_state peer buf w ≡ some (ok, c', w')
      opened = rw is_open at e

  abbrev pub deliver_all : List Message → W → W
  deliver_all [] w = w
  deliver_all ((a, b, c, d, payload) ∷ messages) w =
      deliver_all messages (deliver peer.on_message payload w)

  text_frame :
      (payload : List ℕ) (w : W)
      → on_frame peer (record { fin = true; opcode = text; payload = payload }) w
        ≡ (none, deliver peer.on_message payload w)
  unfolding on_frame
  text_frame payload w = refl

  handle_frames-stream :
      (fuel : ℕ) (messages : List Message) (w : W)
      → All Fits messages
      → length (stream messages) < fuel
      → handle_frames fuel peer (stream messages) w
        ≡ some (FramesPhase.need_more, [], deliver_all messages w)
  unfolding handle_frames after_parse after_frame
  handle_frames-stream zero messages w fits h = absurd (omega arith)
  handle_frames-stream (suc fuel) [] w fits h = rw (parse_frame-nil blank_frame) refl
  handle_frames-stream (suc fuel) ((a, b, c, d, payload) ∷ messages) w fits h =
      rw
        (
          parse_frame-client_frame true 1 a b c d payload (stream messages) blank_frame
              (omega arith) fits.0,
          to_op-text,
          text_frame payload w,
        )
        (handle_frames-stream fuel messages _ fits.1 (omega (arith, longer)))
    where
      longer :
          length (client_frame true 1 a b c d payload ++ stream messages)
          ≡ length (client_frame true 1 a b c d payload) + length (stream messages)
      longer = length-append (client_frame true 1 a b c d payload) (stream messages)

  -- One read of the masked text messages of a client, each of at most 2 ^ 20 bytes, hands them on
  -- one after the other, in their order, and leaves nothing in the buffer.
  pub read-stream :
      (messages : List Message) (w : W)
      → All Fits messages
      → read peer (some (stream messages)) (record { state = open_state; in_buf = [] }) w
        ≡ some (ok, record { state = open_state; in_buf = [] }, deliver_all messages w)
  unfolding read after_frames
  read-stream messages w fits =
      open_lem (stream messages) w
      ∙ ap finished (handle_frames-stream (rounds (stream messages)) messages w fits (omega arith))

  -- A read that completes an upgrade request with a key that is not empty writes one response, of
  -- status 101, whose fields make the connection a WebSocket and hold the value that a client reads
  -- as the SHA-1 digest of the key and the protocol's GUID; and it opens the connection. The bytes
  -- behind the request are kept, and nothing is done with them yet: a frame among them is not handed
  -- on by this read. The lines of the request hold no CR, and the names of its fields no colon.
  pub read-upgrade :
      (before now request_line : List ℕ) (fields : List Field) (rest : List ℕ) (k : ℕ)
      (key : List ℕ) (w : W)
      → IsRequest request_line fields
      → before ++ now ≡ request request_line fields rest
      → lookup_field (codes "Sec-WebSocket-Key") fields ≡ k ∷ key
      → (response : List ℕ) × IsSwitching (k ∷ key) response
        × (read peer (some now) (record { state = handshake; in_buf = before }) w
            ≡ some (ok, record { state = open_state; in_buf = rest }, peer.write response w))
  unfolding read by_state handle_handshake respond after_handshake answer
  read-upgrade before now request_line fields rest k key w is_request e found = (
    (answer (k ∷ key)).1,
    (answer-Reply (k ∷ key)).1,
    rw (e, request_answered request_line fields rest [] is_request, found) refl,
  )

  -- A read that completes a request without a key, or with an empty one, writes one response, of
  -- status 426, whose fields name the protocol and state the length of its body; and it fails, so
  -- that the caller closes the connection. The lines of the request hold no CR, and the names of its
  -- fields no colon.
  pub read-not_upgrade :
      (before now request_line : List ℕ) (fields : List Field) (rest : List ℕ) (w : W)
      → IsRequest request_line fields
      → before ++ now ≡ request request_line fields rest
      → lookup_field (codes "Sec-WebSocket-Key") fields ≡ []
      → (response : List ℕ) × IsUpgradeRequired response
        × (read peer (some now) (record { state = handshake; in_buf = before }) w
            ≡ some (err, record { state = handshake; in_buf = rest }, peer.write response w))
  unfolding read by_state handle_handshake respond after_handshake answer
  read-not_upgrade before now request_line fields rest w is_request e missing = (
    (answer []).1,
    (answer-Reply []).1,
    rw (e, request_answered request_line fields rest [] is_request, missing) refl,
  )

  -- A client that is gone.
  pub read-end : (c : Connection) (w : W) → read peer none c w ≡ some (err, c, w)
  unfolding read
  read-end c w = refl
