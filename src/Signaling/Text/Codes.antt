-- ===== src/Signaling/Text/Codes.antt =====
-- Room codes as text, and how messages are cut into verb and body.
use pong_pp.Common.{
  ℕ, zero, suc, ◌+◌, ◌-◌, ◌*◌, ◌/◌, ◌%◌, ◌^◌, ◌<◌, ◌≡◌, refl, ◌∙◌, ap, sym, ◌≢◌, true, false, some,
  List, [], ◌∷◌, ◌++◌, length, append-nil, append_assoc, take-append_exact, drop-append_right, ltb,
  lt→ltb, arith, Bool-cases, inl, inr,
}
use pong_pp.Common.Decimal.{digits_of, to_string}
use pong_pp.Common.Find.{Without, find-first}
use pong_pp.Signaling.Text.{
  is_digit, take_digits, from_chars, parse_code, is_newline, keep_front, trim_end, split_verb,
}

digit_lem : (d : ℕ) → d < 10 → is_digit (48 + d) ≡ true
unfolding is_digit
digit_lem d h = ground arith

one_digit : (n : ℕ) → 0 * 10 + (48 + n - 48) ≡ n
one_digit n = omega arith

last_digit : (n : ℕ) → n / 10 * 10 + (48 + n % 10 - 48) ≡ n
last_digit n = omega arith

-- A number has fewer digits than `suc n`, so the digits read back are the number.
take_digits-digits_of :
    (fuel n : ℕ) (s : List ℕ) → n < fuel → take_digits 0 (digits_of fuel n ++ s) ≡ take_digits n s
unfolding take_digits digits_of
take_digits-digits_of zero n s h = absurd (omega arith)
take_digits-digits_of (suc fuel) n s h = elim (Bool-cases (ltb n 10)) [
  | inl one ↦ rw one (rw (digit_lem n (ground arith), one_digit n) refl)
  | inr more ↦
      rw
        (
          more,
          append_assoc (digits_of fuel (n / 10)) ((48 + n % 10) ∷ []) s,
          take_digits-digits_of fuel (n / 10) ((48 + n % 10) ∷ s) (ground arith),
        )
        (rw (digit_lem (n % 10) (omega arith), last_digit n) refl)
]

nothing_left : (n : ℕ) → take_digits n [] ≡ (n, [])
unfolding take_digits
nothing_left n = refl

from_chars_digits :
    (c : ℕ) (s : List ℕ) (n : ℕ)
    → is_digit c ≡ true
    → take_digits 0 (c ∷ s) ≡ (n, [])
    → n < 2 ^ 64
    → from_chars (c ∷ s) ≡ some (n, [])
unfolding from_chars
from_chars_digits c s n d e h = rw (e, d, lt→ltb n (2 ^ 64) h) refl

parse_code_digits :
    (c : ℕ) (s : List ℕ) (n : ℕ)
    → is_digit c ≡ true
    → take_digits 0 (c ∷ s) ≡ (n, [])
    → n < 2 ^ 64
    → parse_code (c ∷ s) ≡ n
unfolding parse_code
parse_code_digits c s n d e h = rw (parse_code, from_chars_digits c s n d e h) refl

digits_front :
    (fuel n : ℕ)
    → n < fuel
    → (c : ℕ) × (s : List ℕ) × (digits_of fuel n ≡ c ∷ s) × (is_digit c ≡ true)
unfolding digits_of is_digit
digits_front zero n h = absurd (omega arith)
digits_front (suc fuel) n h = elim (Bool-cases (ltb n 10)) [
  | inl one ↦ (48 + n, [], rw one refl, ground arith)
  | inr more ↦
      let (c, s, e, d) = digits_front fuel (n / 10) (ground arith) in
      (c, s ++ (48 + n % 10) ∷ [], rw (more, e) refl, d)
]

-- The code that the server prints for a room is the code that it reads back, up to the largest one.
pub parse_code-to_string : (n : ℕ) → n < 2 ^ 64 → parse_code (to_string n) ≡ n
unfolding to_string
parse_code-to_string n h =
    let (c, s, e, d) = digits_front (suc n) n (omega arith) in
    let read : take_digits 0 (digits_of (suc n) n) ≡ (n, []) =
      ap (take_digits 0) (sym (append-nil (digits_of (suc n) n)))
      ∙ take_digits-digits_of (suc n) n [] (omega arith)
      ∙ nothing_left n in
    ap parse_code e ∙ parse_code_digits c s n d (ap (take_digits 0) (sym e) ∙ read) h

-- A message of a verb, a space and a body is cut there, whatever the body.
pub split_verb_lem :
    (v body : List ℕ) → Without b' ' v → split_verb (v ++ (b' ' ∷ body)) ≡ (v, body)
unfolding split_verb
split_verb_lem v body w =
    rw
      (
        split_verb,
        find-first 32 [] (v ++ (b' ' ∷ body)) v body 0 refl w,
        whole,
        next,
        take-append_exact v (b' ' ∷ body),
        drop-append_right v (b' ' ∷ body) 1,
      )
      refl
  where
    whole : 0 + length v ≡ length v
    whole = omega arith

    next : length v + 1 ≡ length v + 1
    next = refl

-- Line ends behind a message are not part of it.
pub trim_end-newline :
    (msg : List ℕ) (c : ℕ) → is_newline c ≡ true → trim_end (msg ++ c ∷ []) ≡ trim_end msg
unfolding trim_end keep_front
trim_end-newline [] c h = rw h refl
trim_end-newline (d ∷ msg) c h = ap (keep_front d) (trim_end-newline msg c h)

keep_front-full : (c : ℕ) (xs : List ℕ) → xs ≢ [] → keep_front c xs ≡ c ∷ xs
unfolding keep_front
keep_front-full c [] h = absurd (h refl)
keep_front-full c (d ∷ xs) h = refl

behind_not_nil : (xs ys : List ℕ) (c : ℕ) → xs ++ (c ∷ ys) ≢ []
behind_not_nil [] ys c e = cc
behind_not_nil (x ∷ xs) ys c e = cc

-- Trimming stops at a byte that is no line end.
pub trim_end-behind :
    (xs body : List ℕ) (c : ℕ)
    → is_newline c ≡ false
    → trim_end (xs ++ (c ∷ body)) ≡ xs ++ (c ∷ trim_end body)
unfolding trim_end
trim_end-behind [] body c h = last_kept c (trim_end body) h
  where
    last_kept : (c : ℕ) (s : List ℕ) → is_newline c ≡ false → keep_front c s ≡ c ∷ s
    last_kept c [] h = unfold keep_front in (rw h refl)
    last_kept c (d ∷ s) h = unfold keep_front in refl
trim_end-behind (x ∷ xs) body c h =
    rw (trim_end-behind xs body c h)
      (keep_front-full x (xs ++ (c ∷ trim_end body)) (behind_not_nil xs (trim_end body) c))

digits_end :
    (fuel n : ℕ)
    → n < fuel
    → (xs : List ℕ) × (d : ℕ) × (digits_of fuel n ≡ xs ++ d ∷ []) × (is_newline d ≡ false)
unfolding digits_of is_newline
digits_end zero n h = absurd (omega arith)
digits_end (suc fuel) n h = elim (Bool-cases (ltb n 10)) [
  | inl one ↦ ([], 48 + n, rw one refl, ground arith)
  | inr more ↦ (digits_of fuel (n / 10), 48 + n % 10, rw more refl, ground arith)
]

pub trim_end-to_string : (n : ℕ) → trim_end (to_string n) ≡ to_string n
unfolding to_string trim_end
trim_end-to_string n =
    let (xs, d, e, h) = digits_end (suc n) n (omega arith) in
    ap trim_end e ∙ trim_end-behind xs [] d h ∙ sym e
