-- ===== src/Signaling/Text.antt =====
-- The text side of src/server/signaling/player.cpp: verbs, codes, and how a message is cut up.
pub mod Codes
use pong_pp.Common.{
  ℕ, ◌+◌, ◌-◌, ◌*◌, ◌^◌, Bool, ◌&&◌, ◌||◌, Option, none, some, List, [], ◌∷◌, ◌++◌, codes, take,
  drop, ltb, leb, ◌==◌, if◌then◌else◌,
}
use pong_pp.Common.Find.{find}

unfoldable pub is_digit : ℕ → Bool
is_digit c = leb b'0' c && leb c b'9'

-- The number that the digits at the front stand for, behind `acc`, and what follows them.
unfoldable pub take_digits : ℕ → List ℕ → ℕ × List ℕ
take_digits acc [] = (acc, [])
take_digits acc (c ∷ s) =
    let rest = take_digits (acc * 10 + (c - 48)) s in if is_digit c then rest else (acc, c ∷ s)

-- std::from_chars into a `uint64_t`: `none` if there is no digit or the number does not fit.
unfoldable pub from_chars : List ℕ → Option (ℕ × List ℕ)
from_chars [] = none
from_chars (c ∷ s) =
    let (value, rest) = take_digits 0 (c ∷ s) in
    if is_digit c then (if ltb value (2 ^ 64) then some (value, rest) else none) else none

unfoldable pub parse_code : List ℕ → ℕ
parse_code s = elim (from_chars s) [
  | none ↦ 0
  | some (value, []) ↦ value
  | some (value, r ∷ rest) ↦ 0
]

unfoldable pub is_newline : ℕ → Bool
is_newline c = c == b'\n' || c == b'\r'

-- A byte in front of what is left of the rest.
unfoldable pub keep_front : ℕ → List ℕ → List ℕ
keep_front c [] = if is_newline c then [] else c ∷ []
keep_front c (d ∷ s) = c ∷ d ∷ s

-- while (!msg.empty() && (msg.back() == '\n' || msg.back() == '\r')) msg.remove_suffix(1)
unfoldable pub trim_end : List ℕ → List ℕ
trim_end [] = []
trim_end (c ∷ msg) = keep_front c (trim_end msg)

-- The verb and the body.
unfoldable pub split_verb : List ℕ → List ℕ × List ℕ
split_verb msg = elim (find (codes " ") msg 0) [
  | none ↦ (msg, [])
  | some sp ↦ (take sp msg, drop (sp + 1) msg)
]
