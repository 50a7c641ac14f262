-- ===== src/Ws/Connection/Frames.antt =====
-- The loop over the frames of the buffer: it ends, and how the bytes are cut up by the reads does
-- not matter.
use pong_pp.Common.{
  ℕ, zero, suc, ◌<◌, ◌≡◌, refl, ap, sym, ◌∙◌, ◌≢◌, Option, none, some, List, ◌++◌, length,
  length-append, length-drop, arith,
}
use pong_pp.Ws.Frame.{Frame, ParseResult, parse_frame}
use pong_pp.Ws.Frame.Stream.{parse_frame_untouched, parse_frame-append, parse_frame-got}
use pong_pp.Ws.Connection.{
  FramesPhase, Peer, blank_frame, on_frame, after_frame, after_parse, handle_frames, rounds,
  by_opcode,
}

module _ {W : Type 0} (peer : Peer W) where
  parse_progress :
      (buf : List ℕ)
      → (parse_frame buf blank_frame).0 ≡ ParseResult.got
      → length (parse_frame buf blank_frame).1 < length buf
  parse_progress buf h =
      let found = parse_frame-got buf blank_frame h in
      omega (arith, ap length found.1, length-drop found.0 buf, found.2, found.3)

  -- The loop has fuel left when it returns.
  abbrev Returns : Option (FramesPhase × List ℕ × W) → Type 0
  Returns r = (x : FramesPhase × List ℕ × W) × (r ≡ some x)

  after_parse-Returns :
      (go_on : List ℕ → W → Option (FramesPhase × List ℕ × W)) (w : W)
      → (r : ParseResult × List ℕ × Frame)
      → (r.0 ≡ ParseResult.got → (w' : W) → Returns (go_on r.1 w'))
      → Returns (after_parse peer go_on w r)
  unfolding after_parse after_frame
  after_parse-Returns go_on w (ParseResult.need_more, buf, f) rest = (_, refl)
  after_parse-Returns go_on w (ParseResult.bad, buf, f) rest = (_, refl)
  after_parse-Returns go_on w (ParseResult.got, buf, f) rest = step (on_frame peer f w)
    where
      step : (a : Option FramesPhase × W) → Returns (after_frame buf (go_on buf) a)
      step (none, w') = rest refl w'
      step (some phase, w') = (_, refl)

  -- A round for each byte, and one more, is enough for the loop over the frames to return.
  pub handle_frames-Returns :
      (fuel : ℕ) (buf : List ℕ) (w : W)
      → length buf < fuel
      → (x : FramesPhase × List ℕ × W) × (handle_frames fuel peer buf w ≡ some x)
  unfolding handle_frames
  handle_frames-Returns zero buf w h = absurd (omega arith)
  handle_frames-Returns (suc fuel) buf w h =
      after_parse-Returns (handle_frames fuel peer) w (parse_frame buf blank_frame)
        λ found w'. handle_frames-Returns fuel _ w' (omega (arith, parse_progress buf found))

  after_parse_same :
      (f g : List ℕ → W → Option (FramesPhase × List ℕ × W)) (w : W)
      → (r : ParseResult × List ℕ × Frame)
      → (r.0 ≡ ParseResult.got → (w' : W) → f r.1 w' ≡ g r.1 w')
      → after_parse peer f w r ≡ after_parse peer g w r
  unfolding after_parse after_frame
  after_parse_same f g w (ParseResult.need_more, buf, fr) h = refl
  after_parse_same f g w (ParseResult.bad, buf, fr) h = refl
  after_parse_same f g w (ParseResult.got, buf, fr) h = step (on_frame peer fr w)
    where
      step : (a : Option FramesPhase × W) → after_frame buf (f buf) a ≡ after_frame buf (g buf) a
      step (none, w') = h refl w'
      step (some phase, w') = refl

  -- Two counts of rounds that are both enough give the same.
  pub handle_frames-fuel :
      (m n : ℕ) (buf : List ℕ) (w : W)
      → length buf < m
      → length buf < n
      → handle_frames m peer buf w ≡ handle_frames n peer buf w
  unfolding handle_frames
  handle_frames-fuel zero n buf w p q = absurd (omega arith)
  handle_frames-fuel (suc m) zero buf w p q = absurd (omega arith)
  handle_frames-fuel (suc m) (suc n) buf w p q =
      after_parse_same (handle_frames m peer) (handle_frames n peer) w (parse_frame buf blank_frame)
        λ found w'.
          handle_frames-fuel m n _ w' (omega (arith, parse_progress buf found))
            (omega (arith, parse_progress buf found))

  -- More bytes come in after the loop returned.
  unfoldable pub resume :
      List ℕ → Option (FramesPhase × List ℕ × W) → Option (FramesPhase × List ℕ × W)
  resume more none = none
  resume more (some (FramesPhase.need_more, left, w)) =
      handle_frames (rounds (left ++ more)) peer (left ++ more) w
  resume more (some (FramesPhase.bad, left, w)) = some (FramesPhase.bad, left ++ more, w)
  resume more (some (FramesPhase.closed, left, w)) = some (FramesPhase.closed, left ++ more, w)

  -- A frame either ends the loop for good or lets it go on.
  on_frame_final : (f : Frame) (w : W) → (on_frame peer f w).0 ≢ some FramesPhase.need_more
  unfolding on_frame by_opcode
  on_frame_final f w = ground arith

  one_round :
      (n : ℕ) (buf : List ℕ) (w : W)
      → handle_frames (suc n) peer buf w
        ≡ after_parse peer (handle_frames n peer) w (parse_frame buf blank_frame)
  unfolding handle_frames
  one_round n buf w = refl

  parsed_longer :
      (buf more : List ℕ) (r : ParseResult × List ℕ × Frame)
      → parse_frame buf blank_frame ≡ r
      → r.0 ≢ ParseResult.need_more
      → parse_frame (buf ++ more) blank_frame ≡ (r.0, r.1 ++ more, r.2)
  parsed_longer buf more r e h =
      parse_frame-append buf more blank_frame (λ g. h (sym (ap (λ x. x.0) e) ∙ g))
      ∙ ap (λ (x : ParseResult × List ℕ × Frame). (x.0, x.1 ++ more, x.2)) e

  after_parse-append :
      (m n : ℕ) (buf more : List ℕ) (w : W)
      → (r : ParseResult × List ℕ × Frame) → parse_frame buf blank_frame ≡ r
      → length (buf ++ more) < suc n
      → ((w' : W)
          → r.0 ≡ ParseResult.got
          → handle_frames n peer (r.1 ++ more) w' ≡ resume more (handle_frames m peer r.1 w'))
      → handle_frames (suc n) peer (buf ++ more) w
        ≡ resume more (after_parse peer (handle_frames m peer) w r)
  unfolding after_parse after_frame resume
  after_parse-append m n buf more w (ParseResult.need_more, left, f) e h ih =
      rw (← same)
        (handle_frames-fuel (suc n) (rounds (buf ++ more)) (buf ++ more) w h (omega arith))
    where
      same : buf ≡ left
      same = sym (parse_frame_untouched buf blank_frame (λ g. absurd (cc (e)))).0 ∙ ap (λ x. x.1) e
  after_parse-append m n buf more w (ParseResult.bad, left, f) e h ih =
      rw
        (one_round n (buf ++ more) w, parsed_longer buf more (ParseResult.bad, left, f) e (λ g. cc))
        refl
  after_parse-append m n buf more w (ParseResult.got, left, f) e h ih =
      rw
        (one_round n (buf ++ more) w, parsed_longer buf more (ParseResult.got, left, f) e (λ g. cc))
        (step (on_frame peer f w) (on_frame_final f w))
    where
      step :
          (a : Option FramesPhase × W)
          → a.0 ≢ some FramesPhase.need_more
          → after_frame (left ++ more) (handle_frames n peer (left ++ more)) a
            ≡ resume more (after_frame left (handle_frames m peer left) a)
      step (none, w') going = ih w' refl
      step (some FramesPhase.need_more, w') going = absurd (going refl)
      step (some FramesPhase.bad, w') going = refl
      step (some FramesPhase.closed, w') going = refl

  -- Reading on: the loop over a buffer and the bytes that come behind it does what the loop over
  -- the buffer does, and then, if that wants more, what the loop over the rest and those bytes
  -- does. So the frames that are found, and all that is written and handed on, do not depend on how
  -- the stream is cut.
  pub handle_frames-append :
      (m n : ℕ) (buf more : List ℕ) (w : W)
      → length buf < m
      → length (buf ++ more) < n
      → handle_frames n peer (buf ++ more) w ≡ resume more (handle_frames m peer buf w)
  handle_frames-append zero n buf more w p q = absurd (omega arith)
  handle_frames-append (suc m) zero buf more w p q = absurd (omega arith)
  handle_frames-append (suc m) (suc n) buf more w p q = rw (one_round m buf w) (
      after_parse-append m n buf more w (parse_frame buf blank_frame) refl q λ w' found.
        handle_frames-append m n _ more w' (omega (arith, parse_progress buf found)) (
          omega (
            arith,
            parse_progress buf found,
            length-append buf more,
            length-append (parse_frame buf blank_frame).1 more,
          )))
