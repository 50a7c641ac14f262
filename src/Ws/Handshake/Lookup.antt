-- ===== src/Ws/Handshake/Lookup.antt =====
-- `find_header` on a well-formed request finds the field of the name.
mod Line
use pong_pp.Common.{
  ℕ, zero, suc, ◌+◌, ◌-◌, ◌≤◌, ◌<◌, ◌≡◌, refl, ap, sym, ◌∙◌, ◌≢◌, false, ◌&&◌, none, some, List, [],
  ◌∷◌, ◌++◌, codes, length, length-append, length-drop, get_or, get_or-drop, take, drop, drop-drop,
  drop-append_right, take-append_exact, le→ltb, lt→ltb, ◌==◌, ==_ne, if◌then◌else◌, All, All-append,
  arith, append_assoc, Bool-cases, inl, inr,
}
use native.Mathlib.Nat.{add_assoc}
use pong_pp.Common.Find.{find, find-first}
use pong_pp.Ws.Handshake.{
  crlf, is_blank, matches_name, skip_blank, line_value, scan_lines, find_header,
}
use pong_pp.Ws.Handshake.Request.{
  Field, field_line, field_lines, request, IsField, IsRequest, same_name, strip, lookup_field,
}
use pong_pp.Ws.Handshake.Lookup.Line.{
  matches_name-same_name, same_name-length, name_test, skip_blank-strip, line_value-field,
}

field_lines-size : (fields : List Field) (rest : List ℕ) → 2 ≤ length (field_lines fields rest)
field_lines-size [] rest = omega arith
field_lines-size ((n, v) ∷ fields) rest =
    omega (arith, length-append (field_line (n, v)) (crlf ++ field_lines fields rest))

in_text : (i : ℕ) (buf tail : List ℕ) → drop i buf ≡ tail → length buf - i ≡ length tail
in_text i buf tail e = sym (length-drop i buf) ∙ ap length e

line_end-found :
    (buf n v tail : List ℕ) (i : ℕ)
    → IsField (n, v)
    → drop i buf ≡ field_line (n, v) ++ (crlf ++ tail)
    → (find crlf buf i ≡ some (i + length (field_line (n, v))))
      × (find (codes ":") buf i ≡ some (i + length n))
line_end-found buf n v tail i (plain, no_colon, plain_value) e = (
  find-first 13 (10 ∷ []) buf (field_line (n, v)) tail i e
      (All-append (λ x. x ≢ 13) n (58 ∷ v) plain (omega arith, plain_value)),
  find-first 58 [] buf n (v ++ (crlf ++ tail)) i (e ∙ append_assoc n (b':' ∷ v) (crlf ++ tail))
      no_colon,
)

-- With a round for each byte that is left the loop finds what the fields say.
scan_lines-lookup_field :
    (fuel : ℕ) (buf name : List ℕ) (i : ℕ) (fields : List Field) (rest : List ℕ)
    → All IsField fields
    → drop i buf ≡ field_lines fields rest
    → length buf < fuel + i
    → scan_lines fuel buf name i ≡ lookup_field name fields
unfolding scan_lines
scan_lines-lookup_field zero buf name i fields rest ok e enough =
    absurd (omega (arith, in_text i buf (field_lines fields rest) e, field_lines-size fields rest))
scan_lines-lookup_field (suc fuel) buf name i [] rest ok e enough =
    rw
      (
        lt→ltb i (length buf) (omega (arith, in_text i buf (field_lines [] rest) e)),
        find-first 13 (10 ∷ []) buf [] rest i e tt,
      )
      (ground arith)
scan_lines-lookup_field (suc fuel) buf name i ((n, v) ∷ fields) rest ok e enough =
    rw
      (
        lt→ltb i (length buf) (
            omega (
              arith,
              in_text i buf (field_lines ((n, v) ∷ fields) rest) e,
              field_lines-size ((n, v) ∷ fields) rest,
            )),
        (line_end-found buf n v (field_lines fields rest) i ok.0 e).0,
        (line_end-found buf n v (field_lines fields rest) i ok.0 e).1,
        line_value-field buf name n v (field_lines fields rest) i e,
      )
      (rw
        (==_ne (i + length (field_line (n, v))) i
          (λ h. absurd (omega (arith, length-append n (58 ∷ v)))))
        (ground (
          arith,
          scan_lines-lookup_field fuel buf name (i + length (field_line (n, v)) + 2) fields rest
              ok.1 next (omega arith),
        )))
  where
    next : drop (i + length (field_line (n, v)) + 2) buf ≡ field_lines fields rest
    next = rw (add_assoc i (length (field_line (n, v))) 2) (
        drop-drop i (length (field_line (n, v)) + 2) buf
        ∙ ap (drop (length (field_line (n, v)) + 2)) e
        ∙ drop-append_right (field_line (n, v)) (crlf ++ field_lines fields rest) 2)

-- On a request, whose lines hold no CR and whose names no colon, the value found is that of the
-- first field with the name, in any case, without the white space before it; nothing if no field
-- has the name.
pub find_header-lookup_field :
    (name request_line : List ℕ) (fields : List Field) (rest : List ℕ)
    → IsRequest request_line fields
    → find_header (request request_line fields rest) name ≡ lookup_field name fields
unfolding find_header
find_header-lookup_field name request_line fields rest (plain, ok) =
    rw
      (
        find_header,
        find-first 13 (10 ∷ []) (request request_line fields rest) request_line
            (field_lines fields rest) 0 refl plain,
      )
      (scan_lines-lookup_field (length (request request_line fields rest))
        (request request_line fields rest) name (0 + length request_line + 2) fields rest ok
        behind_line (omega arith))
  where
    behind_line :
        drop (0 + length request_line + 2) (request request_line fields rest)
        ≡ field_lines fields rest
    behind_line =
        let at_line : 0 + length request_line + 2 ≡ length request_line + 2 = omega arith in
        rw at_line (drop-append_right request_line (crlf ++ field_lines fields rest) 2)
