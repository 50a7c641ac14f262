-- ===== src/Client/Wire.antt =====
-- src/client/main.cpp: the numbers of the messages between the two games, written and read. An index
-- into a buffer is what is left of the buffer from there; what is written is a list. The numbers are
-- those that the floating-point positions are cast to.
pub mod RoundTrip
pub mod Bounds
mod Tests
use pong_pp.Common.Int.{ℤ, pos, negsuc}
use pong_pp.Common.{
  ℕ, zero, suc, ◌+◌, ◌-◌, ◌*◌, ◌/◌, ◌%◌, ◌^◌, Bool, true, false, not, ◌&&◌, ◌||◌, Option, none,
  some, List, [], ◌∷◌, ◌++◌, ltb, leb, ◌==◌, drop, length, if◌then◌else◌,
}

-- tmp[len++] = '0' + (n % 10); a number has no more digits than `suc n`.
unfoldable pub low_digits : ℕ → ℕ → List ℕ
low_digits zero n = []
low_digits (suc fuel) n =
    let rest = low_digits fuel (n / 10) in if n == 0 then [] else (48 + n % 10) ∷ rest

-- The loop that copies `tmp` from its end.
unfoldable pub backwards : List ℕ → List ℕ
backwards [] = []
backwards (c ∷ tmp) = backwards tmp ++ c ∷ []

unfoldable pub int_to_str : ℤ → List ℕ
int_to_str (pos n) = if n == 0 then b'0' ∷ [] else backwards (low_digits (suc n) n)
int_to_str (negsuc n) = b'-' ∷ backwards (low_digits (suc (suc n)) (suc n))

-- s[i] >= '0' && s[i] <= '9'
unfoldable pub in_digits : ℕ → Bool
in_digits c = leb b'0' c && leb c b'9'

-- n * sign
unfoldable pub signed : Bool → ℕ → ℤ
signed false n = pos n
signed true zero = pos 0
signed true (suc n) = negsuc n

-- The value of the digits, behind `n`, and what follows; `none` if it does not fit into an `int`,
-- where the source's behaviour is undefined.
unfoldable pub parse_digits : ℕ → List ℕ → Option (ℕ × List ℕ)
parse_digits n [] = some (n, [])
parse_digits n (c ∷ s) =
    let rest = parse_digits (n * 10 + (c - 48)) s in
    if in_digits c
    then (if ltb (n * 10 + (c - 48)) (2 ^ 31) then rest else none)
    else some (n, c ∷ s)

unfoldable pub with_sign : Bool → Option (ℕ × List ℕ) → Option (ℤ × List ℕ)
with_sign minus none = none
with_sign minus (some (n, s)) = some (signed minus n, s)

unfoldable pub parse_int : List ℕ → Option (ℤ × List ℕ)
parse_int [] = with_sign false (parse_digits 0 [])
parse_int (c ∷ s) =
    if c == b'-'
    then with_sign true (parse_digits 0 s)
    else with_sign false (parse_digits 0 (c ∷ s))

unfoldable pub skip_sep : List ℕ → List ℕ
skip_sep [] = []
skip_sep (c ∷ s) =
    let rest = skip_sep s in if not (c == b'-') && not (in_digits c) then rest else c ∷ s

-- A blank and a number for each value, as `send_state` and `send_paddle` write them behind the tag.
unfoldable pub fields : List ℤ → List ℕ
fields [] = []
fields (z ∷ values) = b' ' ∷ (int_to_str z ++ fields values)

-- What `send_state` and `send_paddle` send.
unfoldable pub message : ℕ → List ℤ → List ℕ
message tag values = tag ∷ fields values

unfoldable pub in_front : ℤ → Option (List ℤ) → Option (List ℤ)
in_front z none = none
in_front z (some values) = some (z ∷ values)

-- A value, and those that are read behind it.
unfoldable pub then_values : (List ℕ → Option (List ℤ)) → Option (ℤ × List ℕ) → Option (List ℤ)
then_values go_on none = none
then_values go_on (some (z, s)) = in_front z (go_on s)

-- `k` values, as `on_peer_message` reads them.
unfoldable pub read_values : ℕ → List ℕ → Option (List ℤ)
read_values zero s = some []
read_values (suc k) s = then_values (read_values k) (parse_int (skip_sep s))

-- The values of a message, from the index 1 on.
unfoldable pub read_message : ℕ → List ℕ → Option (List ℤ)
read_message k msg = read_values k (drop 1 msg)
