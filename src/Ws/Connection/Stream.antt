-- ===== src/Ws/Connection/Stream.antt =====
-- `Read` once and again: however the network cuts the stream of a client, its messages arrive.
use pong_pp.Common.{
  ℕ, ◌≡◌, refl, ap, sym, ◌∙◌, none, some, Option, List, [], ◌∷◌, ◌++◌, append-nil, append_assoc,
  arith, All,
}
use pong_pp.Ws.Connection.{
  open_state, ReadResult, ok, err, FramesPhase, Peer, Connection, after_frames, handle_frames, read,
  rounds,
}
use pong_pp.Ws.Connection.Frames.{handle_frames-append, resume}
use pong_pp.Ws.Connection.Read.{
  Message, stream, Fits, finished, open_lem, read-append, deliver_all, read-stream,
}

abbrev pub concat : List (List ℕ) → List ℕ
concat [] = []
concat (bytes ∷ inputs) = bytes ++ concat inputs

module _ {W : Type 0} (peer : Peer W) where
  -- The next reads, unless the connection was given up.
  abbrev pub go_on :
      (Connection → W → Option (ReadResult × Connection × W))
      → Option (ReadResult × Connection × W)
      → Option (ReadResult × Connection × W)
  go_on next none = none
  go_on next (some (ok, c, w)) = next c w
  go_on next (some (err, c, w)) = some (err, c, w)

  -- One `Read` for each part of what comes in.
  abbrev pub reads : List (List ℕ) → Connection → W → Option (ReadResult × Connection × W)
  reads [] c w = some (ok, c, w)
  reads (bytes ∷ inputs) c w = go_on (reads inputs) (read peer (some bytes) c w)

  first_phase :
      (more : List ℕ) (c' : Connection) (w' : W) (r : Option (FramesPhase × List ℕ × W))
      → finished peer (resume peer more r) ≡ some (ok, c', w')
      → (c1 : Connection) × (w1 : W) × (finished peer r ≡ some (ok, c1, w1))
        × (c1.state ≡ open_state)
  unfolding resume after_frames
  first_phase more c' w' none e = cc
  first_phase more c' w' (some (FramesPhase.need_more, left, w)) e = (_, w, refl, refl)
  first_phase more c' w' (some (FramesPhase.bad, left, w)) e = cc
  first_phase more c' w' (some (FramesPhase.closed, left, w)) e = cc

  -- If a read of all the bytes succeeds, so does a read of the first of them.
  first_read :
      (c c' : Connection) (w w' : W) (first second : List ℕ)
      → c.state ≡ open_state
      → read peer (some (first ++ second)) c w ≡ some (ok, c', w')
      → (c1 : Connection) × (w1 : W) × (read peer (some first) c w ≡ some (ok, c1, w1))
        × (c1.state ≡ open_state)
  unfolding read
  first_read c c' w w' first second is_open e =
      let (c1, w1, found, still_open) =
        first_phase second c' w' (handle_frames (rounds buf) peer buf w) (sym whole ∙ e) in
      (c1, w1, rw is_open (open_lem peer buf w ∙ found), still_open)
    where
      buf : List ℕ
      buf = c.in_buf ++ first

      whole :
          read peer (some (first ++ second)) c w
          ≡ finished peer (resume peer second (handle_frames (rounds buf) peer buf w))
      whole =
          rw
            (
              is_open,
              open_lem,
              ← append_assoc c.in_buf first second,
              handle_frames-append peer (rounds buf) (rounds (buf ++ second)) buf second w
                  (omega arith) (omega arith),
            )
            refl

  pub reads-concat :
      (bytes : List ℕ) (inputs : List (List ℕ)) (c c' : Connection) (w w' : W)
      → c.state ≡ open_state
      → read peer (some (bytes ++ concat inputs)) c w ≡ some (ok, c', w')
      → reads (bytes ∷ inputs) c w ≡ some (ok, c', w')
  reads-concat bytes [] c c' w w' is_open e =
      ap (go_on (reads [])) (ap (λ b. read peer (some b) c w) (sym (append-nil bytes)) ∙ e)
  reads-concat bytes (next ∷ inputs) c c' w w' is_open e =
      let (c1, w1, found, still_open) =
        first_read c c' w w' bytes (next ++ concat inputs) is_open e in
      ap (go_on (reads (next ∷ inputs))) found
      ∙ reads-concat next inputs c1 c' w1 w' still_open
          (sym (read-append peer c c1 w w1 bytes (next ++ concat inputs) is_open found) ∙ e)

  -- The masked text messages of a client, each of at most 2 ^ 20 bytes, come in by any number of
  -- reads, at least one, that cut their bytes anywhere: they are handed on one after the other, in
  -- their order, every read succeeds, and nothing is left in the buffer.
  pub reads-stream :
      (bytes : List ℕ) (inputs : List (List ℕ)) (messages : List Message) (w : W)
      → All Fits messages
      → bytes ++ concat inputs ≡ stream messages
      → reads (bytes ∷ inputs) (record { state = open_state; in_buf = [] }) w
        ≡ some (ok, record { state = open_state; in_buf = [] }, deliver_all peer messages w)
  reads-stream bytes inputs messages w fits e = reads-concat bytes inputs _ _ w _ refl (
      ap (λ b. read peer (some b) (record { state = open_state; in_buf = [] }) w) e
      ∙ read-stream peer messages w fits)
