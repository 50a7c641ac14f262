-- ===== src/Ws/Handshake/Lookup/Line.antt =====
-- One line of the request: its name and its value.
use pong_pp.Common.{
  ℕ, suc, ◌+◌, ◌-◌, ◌≡◌, refl, ap, ◌∙◌, ◌≢◌, false, ◌&&◌, none, some, List, [], ◌∷◌, ◌++◌, length,
  length-append, get_or, get_or-drop, take, drop, drop-drop, drop-append_right, take-append_exact,
  le→ltb, ◌==◌, if◌then◌else◌, arith, append_assoc, Bool-cases, inl, inr,
}
use native.Mathlib.Nat.{add_assoc}
use pong_pp.Ws.Handshake.{crlf, is_blank, matches_name, skip_blank, line_value}
use pong_pp.Ws.Handshake.Request.{field_line, same_name, strip}

pub matches_name-same_name :
    (n tail name : List ℕ)
    → length n ≡ length name
    → matches_name (n ++ tail) name ≡ same_name n name
unfolding matches_name
matches_name-same_name [] tail [] e = refl
matches_name-same_name [] tail (b ∷ name) e = absurd (omega arith)
matches_name-same_name (a ∷ n) tail [] e = absurd (omega arith)
matches_name-same_name (a ∷ n) tail (b ∷ name) e =
    ground (arith, matches_name-same_name n tail name)

pub same_name-length : (n name : List ℕ) → length n ≢ length name → same_name n name ≡ false
same_name-length [] [] h = absurd (h refl)
same_name-length [] (b ∷ name) h = refl
same_name-length (a ∷ n) [] h = refl
same_name-length (a ∷ n) (b ∷ name) h = ground (arith, same_name-length n name)

pub name_test :
    (n tail name : List ℕ)
    → (length n == length name && matches_name (n ++ tail) name) ≡ same_name n name
name_test n tail name = elim (Bool-cases (length n == length name)) [
  | inl e ↦ rw e (matches_name-same_name n tail name (ground arith))
  | inr e ↦ rw (e, same_name-length n name (ground arith)) refl
]

-- Behind the white space the value is what is left of it.
pub skip_blank-strip :
    (value tail buf : List ℕ) (v : ℕ)
    → drop v buf ≡ value ++ tail
    → take
        (v + length value - skip_blank (length value) buf v)
        (drop (skip_blank (length value) buf v) buf)
      ≡ strip value
unfolding skip_blank
skip_blank-strip [] tail buf v e = let none_left : v + 0 - v ≡ 0 = omega arith in rw none_left refl
skip_blank-strip (x ∷ value) tail buf v e = elim (Bool-cases (is_blank x)) [
  | inl blank ↦
      let shift : v + suc (length value) ≡ v + 1 + length value = omega arith in
      rw (here, blank, shift) (skip_blank-strip value tail buf (v + 1) next)
  | inr other ↦
      let whole : v + suc (length value) - v ≡ suc (length value) = omega arith in
      rw (here, other, whole, e) (ap (◌∷◌ x) (take-append_exact value tail))
]
  where
    here : get_or buf v 0 ≡ x
    here =
        let at_v : v + 0 ≡ v = omega arith in
        rw (← at_v) (get_or-drop v 0 buf 0 ∙ ap (λ xs. get_or xs 0 0) e)

    next : drop (v + 1) buf ≡ value ++ tail
    next = drop-drop v 1 buf ∙ ap (drop 1) e

-- A line that holds a field yields its value if the name is the one that is looked for.
pub line_value-field :
    (buf name n value tail : List ℕ) (i : ℕ)
    → drop i buf ≡ field_line (n, value) ++ (crlf ++ tail)
    → line_value buf name i (i + length (field_line (n, value))) (some (i + length n))
      ≡ (if same_name n name then some (strip value) else none)
unfolding line_value
line_value-field buf name n value tail i e =
    rw
      (
        le→ltb (i + length (field_line (n, value))) (i + length n) (omega (arith, whole)),
        back,
        e,
        test,
      )
      (ap (λ (v : List ℕ). if same_name n name then some v else none) stripped)
  where
    line : List ℕ
    line = field_line (n, value)

    whole : length line ≡ length n + suc (length value)
    whole = length-append n (b':' ∷ value)

    back : i + length n - i ≡ length n
    back = omega arith

    test :
        (length n == length name && matches_name (line ++ (crlf ++ tail)) name) ≡ same_name n name
    test =
        rw (append_assoc n (b':' ∷ value) (crlf ++ tail))
          (name_test n ((b':' ∷ value) ++ (crlf ++ tail)) name)

    behind_colon : drop (i + length n + 1) buf ≡ value ++ (crlf ++ tail)
    behind_colon = rw (add_assoc i (length n) 1) (
        drop-drop i (length n + 1) buf
        ∙ ap (drop (length n + 1)) e
        ∙ rw (append_assoc n (b':' ∷ value) (crlf ++ tail))
            (drop-append_right n (b':' ∷ (value ++ (crlf ++ tail))) 1))

    rounds : i + length line - (i + length n + 1) ≡ length value
    rounds = omega (arith, whole)

    end_of_line : i + length line ≡ i + length n + 1 + length value
    end_of_line = omega (arith, whole)

    stripped :
        take
          (i
            + length line
            - skip_blank (i + length line - (i + length n + 1)) buf (i + length n + 1))
          (drop (skip_blank (i + length line - (i + length n + 1)) buf (i + length n + 1)) buf)
        ≡ strip value
    stripped =
        rw (rounds, end_of_line)
          (skip_blank-strip value (crlf ++ tail) buf (i + length n + 1) behind_colon)
