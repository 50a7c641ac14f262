-- ===== src/Base64/Printable.antt =====
-- src/server/util/base64.cpp: the characters of the result.
use pong_pp.Common.{ℕ, ◌%◌, ◌<◌, refl, List, [], ◌∷◌, All, ltb, arith, u32, ◌<<<◌, ◌>>>◌, bit_or}
use pong_pp.Common.Table.{for_all_below, for_all_below_sound}
use pong_pp.Base64.{letter, triple, base64_encode}
use pong_pp.Base64.RoundTrip.{nth_letter, letter_digit}

-- No white space, no control character.
abbrev pub IsPrintable : List ℕ → Type 0
IsPrintable = All (λ c. 32 < c)

nth_letter_above : (v : ℕ) → v < 64 → 32 < nth_letter v
nth_letter_above v h =
    ground (
      arith,
      for_all_below_sound 64 (λ v. ltb 32 (nth_letter v)) v (unfold for_all_below in refl) h,
    )

letter_above : (v shift : ℕ) → 32 < letter v shift
letter_above v shift =
    rw (letter_digit v shift) (nth_letter_above ((v >>> shift) % 64) (omega arith))

pub base64_encode-IsPrintable : (xs : List ℕ) → IsPrintable (base64_encode xs)
unfolding base64_encode
base64_encode-IsPrintable [] = tt
base64_encode-IsPrintable (a ∷ []) =
    let v = u32 (a <<< 16) in
    (letter_above v 18, (letter_above v 12, (omega arith, (omega arith, tt))))
base64_encode-IsPrintable (a ∷ b ∷ []) =
    let v = bit_or (u32 (a <<< 16)) (u32 (b <<< 8)) in
    (letter_above v 18, (letter_above v 12, (letter_above v 6, (omega arith, tt))))
base64_encode-IsPrintable (a ∷ b ∷ c ∷ xs) =
    let v = triple a b c in
    (
      letter_above v 18,
      (letter_above v 12, (letter_above v 6, (letter_above v 0, base64_encode-IsPrintable xs))),
    )
