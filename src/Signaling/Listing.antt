-- ===== src/Signaling/Listing.antt =====
-- src/server/signaling/player.cpp, `RoomsLine`: what a client reads in it. The reader is written from
-- web/src/signaling.ts, which cuts the line at its spaces; each code is what the server makes of it when
-- the client sends it back.
use pong_pp.Common.{
  ℕ, zero, suc, ◌/◌, ◌^◌, ◌<◌, ◌≡◌, refl, ◌∙◌, ap, false, inl, inr, Bool-cases, Option, none, some,
  List, [], ◌∷◌, ◌++◌, append-nil, codes, map, All, All-append, bytes_eq, ltb, ◌==◌, arith,
  if◌then◌else◌,
}
use pong_pp.Common.Find.{Without}
use pong_pp.Common.Decimal.{digits_of, to_string}
use pong_pp.Signaling.State.{Server}
use pong_pp.Signaling.Text.{parse_code}
use pong_pp.Signaling.Text.Codes.{parse_code-to_string}
use pong_pp.Signaling.Verb
use pong_pp.Signaling.Rooms.{joinable_codes, room_words, rooms_line}

-- The first word and the others, cut at the spaces.
abbrev pub words : List ℕ → List ℕ × List (List ℕ)
words [] = ([], [])
words (c ∷ s) = let (w, others) = words s in if c == b' ' then ([], w ∷ others) else (c ∷ w, others)

abbrev pub codes_of : List ℕ × List (List ℕ) → Option (List ℕ)
codes_of (verb, others) = if bytes_eq verb Verb.rooms then some (map parse_code others) else none

abbrev pub read_rooms : List ℕ → Option (List ℕ)
read_rooms line = codes_of (words line)

words-append : (w s : List ℕ) → Without b' ' w → words (w ++ s) ≡ (w ++ (words s).0, (words s).1)
words-append [] s h = refl
words-append (c ∷ w) s h = rw (words-append w s h.1, other) refl
  where
    other : (c == b' ') ≡ false
    other = let differs = h.0 in ground arith

digits_plain : (fuel n : ℕ) → Without b' ' (digits_of fuel n)
unfolding digits_of
digits_plain zero n = tt
digits_plain (suc fuel) n = elim (Bool-cases (ltb n 10)) [
  | inl one ↦ rw one (omega arith, tt)
  | inr more ↦
      rw more
        (All-append _ (digits_of fuel (n / 10)) _ (digits_plain fuel (n / 10)) (omega arith, tt))
]

to_string_plain : (n : ℕ) → Without b' ' (to_string n)
unfolding to_string
to_string_plain n = digits_plain (suc n) n

words-room_words : (codes : List ℕ) → words (room_words codes) ≡ ([], map to_string codes)
unfolding room_words
words-room_words [] = refl
words-room_words (code ∷ codes) =
    rw
      (
        words-append (to_string code) (room_words codes) (to_string_plain code),
        words-room_words codes,
        append-nil (to_string code),
      )
      refl

read_back :
    (codes : List ℕ) → All (λ c. c < 2 ^ 64) codes → map parse_code (map to_string codes) ≡ codes
read_back [] h = refl
read_back (code ∷ codes) h = rw (parse_code-to_string code h.0, read_back codes h.1) refl

-- If all codes are below 2 ^ 64, a client that cuts the ROOMS line at its spaces finds the codes of the open rooms, in their
-- order and no others, each written so that the server reads it back as that code.
pub rooms_line-read_rooms :
    (s : Server)
    → All (λ c. c < 2 ^ 64) (joinable_codes s s.rooms)
    → read_rooms (rooms_line s) ≡ some (joinable_codes s s.rooms)
unfolding rooms_line
rooms_line-read_rooms s small =
    let open_rooms = joinable_codes s s.rooms in
    ap codes_of (
      words-append Verb.rooms (room_words open_rooms) (omega arith)
      ∙ ap (λ (x : List ℕ × List (List ℕ)). (Verb.rooms ++ x.0, x.1)) (words-room_words open_rooms))
    ∙ ap some (read_back open_rooms small)
