-- ===== src/Ws/Frame/Stream.antt =====
-- `parse_frame` on a buffer that bytes are appended to: what it decides it decides for good, and
-- what it takes off the front is one whole frame.
use pong_pp.Common.{
  ℕ, zero, suc, ap, [], ◌∷◌, ◌+◌, ◌≤◌, ◌≡◌, refl, ◌≢◌, some, List, ◌++◌, length, length-append,
  length-take, length-drop, get_or-append, take, drop, take-append, drop-append, arith,
  Option-cases, inl, inr,
}
use pong_pp.Ws.Frame.{
  Frame, to_op, text, need_more, got, length_loop, read_length, unmask, read_payload, parse_lengths,
  parse_frame, max_frame_payload,
}

-- A frame is missing or refused: nothing is taken from the buffer and nothing is written to `out`.
pub parse_frame_untouched :
    (buf : List ℕ) (out : Frame)
    → (parse_frame buf out).0 ≢ got
    → ((parse_frame buf out).1 ≡ buf) × ((parse_frame buf out).2 ≡ out)
unfolding parse_frame parse_lengths read_payload
parse_frame_untouched buf out h = ground arith

length_loop-append :
    (n i : ℕ) (buf more : List ℕ) (acc : ℕ)
    → i + n + 2 ≤ length buf
    → length_loop n i (buf ++ more) acc ≡ length_loop n i buf acc
unfolding length_loop
length_loop-append zero i buf more acc h = refl
length_loop-append (suc n) i buf more acc h =
    rw
      (
        get_or-append buf more (2 + i) 0 (omega arith),
        length_loop-append n (i + 1) buf more _ (omega arith),
      )
      refl

read_length-append :
    (buf more : List ℕ) (lengths : ℕ × ℕ)
    → 2 ≤ length buf
    → read_length buf ≡ some lengths
    → read_length (buf ++ more) ≡ some lengths
unfolding read_length
read_length-append buf more lengths h e = ground (
  arith,
  length-append buf more,
  get_or-append buf more 1 0,
  get_or-append buf more 2 0,
  get_or-append buf more 3 0,
  length_loop-append 8 0 buf more 0,
)

read_payload-append :
    (buf more : List ℕ) (out : Frame) (lengths : ℕ × ℕ)
    → 2 ≤ length buf
    → (read_payload buf out lengths).0 ≢ need_more
    → read_payload (buf ++ more) out lengths ≡ (
      (read_payload buf out lengths).0,
      (read_payload buf out lengths).1 ++ more,
      (read_payload buf out lengths).2,
    )
unfolding read_payload
read_payload-append buf more out (payload_len, header_len) two h = ground (
  arith,
  length-append buf more,
  drop-append (header_len + 4 + payload_len) buf more,
  drop-append header_len buf more,
  drop-append (header_len + 4) buf more,
  take-append 4 (drop header_len buf) more,
  take-append payload_len (drop (header_len + 4) buf) more,
  length-drop header_len buf,
  length-drop (header_len + 4) buf,
  get_or-append buf more 0 0,
)

-- Once a frame is found or refused, bytes that arrive later change neither the result nor the frame,
-- and stay in the buffer behind what is left of it.
pub parse_frame-append :
    (buf more : List ℕ) (out : Frame)
    → (parse_frame buf out).0 ≢ need_more
    → parse_frame (buf ++ more) out
      ≡ ((parse_frame buf out).0, (parse_frame buf out).1 ++ more, (parse_frame buf out).2)
unfolding parse_frame parse_lengths
parse_frame-append buf more out h = elim (Option-cases (read_length buf)) [
  | inl none_yet ↦
      ground (arith, length-append buf more, get_or-append buf more 0 0, get_or-append buf more 1 0)
  | inr (lengths, found) ↦ ground (
    arith,
    length-append buf more,
    get_or-append buf more 0 0,
    get_or-append buf more 1 0,
    read_length-append buf more lengths,
    read_payload-append buf more out lengths,
  )
]

length-unmask : (key : List ℕ) (i : ℕ) (src : List ℕ) → length (unmask key i src) ≡ length src
unfolding unmask
length-unmask key i [] = refl
length-unmask key i (x ∷ src) = ap suc (length-unmask key (i + 1) src)

payload_size :
    (header_len payload_len : ℕ) (buf : List ℕ)
    → header_len + 4 + payload_len ≤ length buf
    → length
        (unmask (take 4 (drop header_len buf)) 0 (take payload_len (drop (header_len + 4) buf)))
      ≡ payload_len
payload_size header_len payload_len buf h = omega (
  arith,
  length-unmask (take 4 (drop header_len buf)) 0 (take payload_len (drop (header_len + 4) buf)),
  length-take payload_len (drop (header_len + 4) buf),
  length-drop (header_len + 4) buf,
)

header-le :
    (buf : List ℕ) (lengths : ℕ × ℕ)
    → read_length buf ≡ some lengths
    → (2 ≤ lengths.1) × (lengths.1 ≤ 10)
unfolding read_length
header-le buf lengths e = ground arith

-- A frame that is found takes from the front of the buffer between its six bytes of header and mask
-- and what is there; its payload has at most 2 ^ 20 bytes.
pub parse_frame-got :
    (buf : List ℕ) (out : Frame)
    → (parse_frame buf out).0 ≡ got
    → (total : ℕ) × ((parse_frame buf out).1 ≡ drop total buf)
      × (total ≤ length buf)
      × (length (parse_frame buf out).2.payload + 6 ≤ total)
      × (length (parse_frame buf out).2.payload ≤ max_frame_payload)
unfolding parse_frame parse_lengths read_payload
parse_frame-got buf out h = elim (Option-cases (read_length buf)) [
  | inl none_yet ↦ absurd (ground arith)
  | inr ((payload_len, header_len), found) ↦
      let payload =
        unmask (take 4 (drop header_len buf)) 0 (take payload_len (drop (header_len + 4) buf)) in
      let short : header_len + 4 + payload_len ≤ length buf = ground arith in
      let size : length payload ≡ payload_len = payload_size header_len payload_len buf short in
      (
        header_len + 4 + payload_len,
        ground arith,
        short,
        ground (arith, header-le buf (payload_len, header_len)),
        ground arith,
      )
]

pub parse_frame-nil : (out : Frame) → parse_frame [] out ≡ (need_more, [], out)
unfolding parse_frame
parse_frame-nil out = refl

pub to_op-text : to_op 1 ≡ text
unfolding to_op
to_op-text = refl
