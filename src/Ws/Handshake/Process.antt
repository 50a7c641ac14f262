-- ===== src/Ws/Handshake/Process.antt =====
-- `process_handshake` on requests, whole and in part.
use pong_pp.Common.{
  ℕ, suc, ◌+◌, ◌≤◌, ◌<◌, ◌≡◌, refl, ap, ◌∙◌, ◌≢◌, false, some, List, [], ◌∷◌, ◌++◌, codes, length,
  length-append, append_assoc, All-append, length-drop, drop, drop-append_right, arith, All,
}
use pong_pp.Common.Find.{find, find-none, find_here, starts_with, Without}
use pong_pp.Ws.Handshake.{need_more, crlf, key_name, answer, process_handshake}
use pong_pp.Ws.Handshake.Request.{
  Field, field_line, field_lines, request, IsField, IsRequest, lookup_field,
}
use pong_pp.Ws.Handshake.Lookup.{find_header-lookup_field}

abbrev blank_line : List ℕ
blank_line = codes "\r\n\r\n"

-- Where the blank line of the fields begins, from the CRLF before them.
abbrev fields_size : List Field → ℕ
fields_size [] = 0
fields_size (f ∷ fields) = suc (suc (length (field_line f) + fields_size fields))

not_blank : (n more : List ℕ) → Without b'\r' n → starts_with crlf (n ++ (b':' ∷ more)) ≡ false
not_blank [] more w = ground arith
not_blank (a ∷ n) more w = ground arith

plain_line : (f : Field) → IsField f → Without b'\r' (field_line f)
plain_line (n, v) (plain, no_colon, plain_value) =
    All-append (λ x. x ≢ b'\r') n (b':' ∷ v) plain (omega arith, plain_value)

blank_line-found :
    (fields : List Field) (line rest : List ℕ)
    → Without b'\r' line
    → All IsField fields
    → find_here blank_line (line ++ (crlf ++ field_lines fields rest))
      ≡ some (length line + fields_size fields)
unfolding find_here
blank_line-found [] [] rest w ok = ground arith
blank_line-found [] (x ∷ line) rest w ok = ground (arith, blank_line-found [] line rest w.1 ok)
blank_line-found ((n, v) ∷ fields) [] rest w ok = ground (
  arith,
  ap (λ (xs : List ℕ). starts_with crlf xs)
      (append_assoc n (b':' ∷ v) (crlf ++ field_lines fields rest)),
  not_blank n (v ++ (crlf ++ field_lines fields rest)) ok.0.0,
  blank_line-found fields (field_line (n, v)) rest (plain_line (n, v) ok.0) ok.1,
)
blank_line-found (f ∷ fields) (x ∷ line) rest w ok =
    ground (arith, blank_line-found (f ∷ fields) line rest w.1 ok)

behind_request :
    (fields : List Field) (line rest : List ℕ)
    → drop (length line + fields_size fields + 4) (line ++ (crlf ++ field_lines fields rest)) ≡ rest
behind_request [] line rest =
    let e : length line + 0 + 4 ≡ length line + 4 = omega arith in
    rw e (drop-append_right line (crlf ++ field_lines [] rest) 4)
behind_request (f ∷ fields) line rest =
    let e : length line + suc (suc (length (field_line f) + fields_size fields)) + 4
        ≡ length line + suc (suc (length (field_line f) + fields_size fields + 4)) =
      omega arith in
    rw e (
      drop-append_right line (crlf ++ field_lines (f ∷ fields) rest)
        (suc (suc (length (field_line f) + fields_size fields + 4)))
      ∙ behind_request fields (field_line f) rest)

pub request_answered :
    (request_line : List ℕ) (fields : List Field) (rest out_response : List ℕ)
    → IsRequest request_line fields
    → let (result, response) = answer (lookup_field key_name fields) in
      process_handshake (request request_line fields rest) out_response ≡ (result, rest, response)
unfolding process_handshake find
request_answered request_line fields rest out_response (plain, ok) =
    rw
      (
        process_handshake,
        blank_line-found fields request_line rest plain ok,
        find_header-lookup_field key_name request_line fields rest (plain, ok),
        at_end,
      )
      refl
  where
    at_end :
        drop (0 + (length request_line + fields_size fields) + 4) (request request_line fields rest)
        ≡ rest
    at_end =
        let e : 0 + (length request_line + fields_size fields) + 4
            ≡ length request_line + fields_size fields + 4 =
          omega arith in
        rw e (behind_request fields request_line rest)

-- As long as a byte of the request, whose lines hold no CR and whose names no colon, is missing,
-- nothing is done.
pub process_handshake-partial :
    (request_line : List ℕ) (fields : List Field) (front back out_response : List ℕ)
    → IsRequest request_line fields
    → front ++ back ≡ request request_line fields []
    → back ≢ []
    → process_handshake front out_response ≡ (need_more, front, out_response)
unfolding process_handshake
process_handshake-partial request_line fields front [] out_response ok e more = absurd (more refl)
process_handshake-partial request_line fields front (b ∷ back) out_response (plain, ok) e more =
    rw
      (
        process_handshake,
        find-none 13 (10 ∷ 13 ∷ 10 ∷ []) front (b ∷ back) (length request_line + fields_size fields)
            (rw e (blank_line-found fields request_line [] plain ok)) short,
      )
      refl
  where
    whole : length (request request_line fields []) ≤ length request_line + fields_size fields + 4
    whole = omega (
      arith,
      length-drop (length request_line + fields_size fields + 4) (request request_line fields []),
      ap length (behind_request fields request_line []),
    )

    short : length front < length request_line + fields_size fields + 4
    short = omega (arith, length-append front (b ∷ back), ap length e, whole)
