-- ===== src/Client/Wire/RoundTrip.antt =====
-- The other game reads the numbers that were sent.
use pong_pp.Common.{
  ℕ, zero, suc, ◌+◌, ◌*◌, ◌/◌, ◌%◌, ◌^◌, ◌<◌, ◌≡◌, refl, ◌∙◌, ap, sym, true, false, inl, inr,
  Bool-cases, some, List, [], ◌∷◌, ◌++◌, append_assoc, ltb, length, All, arith, ◌==◌,
}
use pong_pp.Common.Int.{ℤ, pos, negsuc}
use pong_pp.Client.Wire.{
  low_digits, backwards, int_to_str, in_digits, signed, parse_digits, with_sign, parse_int,
  skip_sep, fields, message, read_values, then_values, in_front, read_message,
}

-- An `int` that its negative is one of, too.
unfoldable pub FitsInt : ℤ → Type 0
FitsInt (pos n) = n < 2 ^ 31
FitsInt (negsuc n) = suc n < 2 ^ 31

digit_step :
    (m d : ℕ) (s : List ℕ)
    → d < 10
    → m * 10 + d < 2 ^ 31
    → parse_digits m ((48 + d) ∷ s) ≡ parse_digits (m * 10 + d) s
unfolding parse_digits in_digits
digit_step m d s h small = ground (arith)

-- A number ends where the next blank stands.
parse_ends : (n : ℕ) (values : List ℤ) → parse_digits n (fields values) ≡ some (n, fields values)
unfolding parse_digits in_digits fields
parse_ends n [] = refl
parse_ends n (z ∷ values) = refl

-- The digits read back from the front: what is in `tmp`, from its end.
parse_digits-low_digits :
    (fuel n : ℕ) (s : List ℕ)
    → n < fuel
    → n < 2 ^ 31
    → parse_digits 0 (backwards (low_digits fuel n) ++ s) ≡ parse_digits n s
unfolding low_digits backwards
parse_digits-low_digits zero n s h small = absurd (omega arith)
parse_digits-low_digits (suc fuel) n s h small = elim (Bool-cases (n == 0)) [
  | inl e ↦ let eq : n ≡ 0 = ground arith in rw eq refl
  | inr e ↦
      rw
        (
          e,
          append_assoc (backwards (low_digits fuel (n / 10))) ((48 + n % 10) ∷ []) s,
          parse_digits-low_digits fuel (n / 10) ((48 + n % 10) ∷ s) (ground arith) (omega arith),
          digit_step (n / 10) (n % 10) s (omega arith) (omega arith),
        )
        (ap (λ x. parse_digits x s) (omega arith))
]

digits_read :
    (n : ℕ) (values : List ℤ)
    → n < 2 ^ 31
    → parse_digits 0 (backwards (low_digits (suc n) n) ++ fields values) ≡ some (n, fields values)
digits_read n values small =
    parse_digits-low_digits (suc n) n (fields values) (omega arith) small ∙ parse_ends n values

none_left : (fuel n : ℕ) → n ≡ 0 → low_digits fuel n ≡ []
unfolding low_digits
none_left zero n e = refl
none_left (suc fuel) n e = rw e refl

-- The digits of a number do not begin with a sign or a blank.
digits_front :
    (fuel n : ℕ)
    → 0 < n
    → n < fuel
    → (c : ℕ) × (s : List ℕ) × (backwards (low_digits fuel n) ≡ c ∷ s) × (in_digits c ≡ true)
unfolding low_digits backwards in_digits
digits_front zero n some_digit h = absurd (omega arith)
digits_front (suc fuel) n some_digit h = elim (Bool-cases (ltb n 10)) [
  | inl one ↦ (
    48 + n % 10,
    [],
    rw (nonzero n some_digit, none_left fuel (n / 10) (ground arith)) refl,
    ground arith,
  )
  | inr more ↦
      let (c, s, e, d) = digits_front fuel (n / 10) (ground arith) (ground arith) in
      (c, s ++ (48 + n % 10) ∷ [], rw (nonzero n some_digit, e) refl, d)
]
  where
    nonzero : (n : ℕ) → 0 < n → (n == 0) ≡ false
    nonzero n some_digit = ground arith

parse_int-front :
    (c : ℕ) (s : List ℕ)
    → in_digits c ≡ true
    → parse_int (c ∷ s) ≡ with_sign false (parse_digits 0 (c ∷ s))
unfolding parse_int in_digits
parse_int-front c s d = ground arith

skip_sep-front : (c : ℕ) (s : List ℕ) → in_digits c ≡ true → skip_sep (c ∷ s) ≡ c ∷ s
unfolding skip_sep
skip_sep-front c s d = ground arith

after_blank :
    (c : ℕ) (s : List ℕ)
    → in_digits c ≡ true
    → parse_int (skip_sep (b' ' ∷ c ∷ s)) ≡ with_sign false (parse_digits 0 (c ∷ s))
unfolding skip_sep in_digits
after_blank c s d = ap parse_int (skip_sep-front c s d) ∙ parse_int-front c s d

after_blank_minus :
    (s : List ℕ) → parse_int (skip_sep (b' ' ∷ b'-' ∷ s)) ≡ with_sign true (parse_digits 0 s)
unfolding skip_sep in_digits parse_int
after_blank_minus s = refl

zero_read :
    (values : List ℤ)
    → parse_int (skip_sep (b' ' ∷ b'0' ∷ fields values)) ≡ some (pos 0, fields values)
unfolding with_sign signed
zero_read values =
    after_blank 48 (fields values) (unfold in_digits in refl)
    ∙ ap (with_sign false)
        (digit_step 0 0 (fields values) (omega arith) (omega arith) ∙ parse_ends 0 values)

plain_read :
    (n : ℕ) (values : List ℤ)
    → 0 < n
    → n < 2 ^ 31
    → parse_int (skip_sep (b' ' ∷ (backwards (low_digits (suc n) n) ++ fields values)))
      ≡ some (pos n, fields values)
unfolding with_sign signed
plain_read n values some_digit small =
    let (c, s, e, d) = digits_front (suc n) n some_digit (omega arith) in
    ap (λ x. parse_int (skip_sep (b' ' ∷ (x ++ fields values)))) e
    ∙ after_blank c (s ++ fields values) d
    ∙ ap (λ x. with_sign false (parse_digits 0 (x ++ fields values))) (sym e)
    ∙ ap (with_sign false) (digits_read n values small)

-- A value is read back, with the blank before it, and what follows is left.
value_read :
    (z : ℤ) (values : List ℤ)
    → FitsInt z
    → parse_int (skip_sep (fields (z ∷ values))) ≡ some (z, fields values)
unfolding fields FitsInt int_to_str with_sign signed
value_read (pos n) values small = elim (Bool-cases (n == 0)) [
  | inl e ↦ let eq : n ≡ 0 = ground arith in rw eq (zero_read values)
  | inr e ↦ rw e (plain_read n values (ground arith) small)
]
value_read (negsuc n) values small =
    after_blank_minus (backwards (low_digits (suc (suc n)) (suc n)) ++ fields values)
    ∙ ap (with_sign true) (digits_read (suc n) values small)

values_read :
    (values : List ℤ)
    → All FitsInt values
    → read_values (length values) (fields values) ≡ some values
unfolding read_values then_values in_front
values_read [] fits = refl
values_read (z ∷ values) fits =
    ap (then_values (read_values (length values))) (value_read z values fits.0)
    ∙ ap (in_front z) (values_read values fits.1)

-- Whatever values one game sends, all of them below 2 ^ 31 and above -2 ^ 31, the other game reads
-- just these from the message, and no value on the way is too large for an `int`.
pub read_message-message :
    (tag : ℕ) (values : List ℤ)
    → All FitsInt values
    → read_message (length values) (message tag values) ≡ some values
unfolding read_message message
read_message-message tag values fits = values_read values fits
