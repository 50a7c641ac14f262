-- ===== src/Ws/Handshake/Request.antt =====
-- An HTTP request as RFC 9110 and RFC 9112 write it: what `FindHeader` and `ProcessHandshake` are
-- measured against.
use pong_pp.Common.{ℕ, Bool, List, [], ◌∷◌, ◌++◌, map, bytes_eq, if◌then◌else◌, All}
use pong_pp.Common.Find.{Without}
use pong_pp.Ws.Handshake.{crlf, tolower, is_blank}

-- A field's name and its value, with the white space that stands before the value.
abbrev pub Field : Type 0
Field = List ℕ × List ℕ

abbrev pub field_line : Field → List ℕ
field_line (name, value) = name ++ (b':' ∷ value)

-- The field lines, the blank line and what follows the request.
abbrev pub field_lines : List Field → List ℕ → List ℕ
field_lines [] rest = crlf ++ rest
field_lines (f ∷ fields) rest = field_line f ++ (crlf ++ field_lines fields rest)

abbrev pub request : List ℕ → List Field → List ℕ → List ℕ
request request_line fields rest = request_line ++ (crlf ++ field_lines fields rest)

-- A line holds no CR, and a name no colon.
abbrev pub IsField : Field → Type 0
IsField (name, value) = Without b'\r' name × Without b':' name × Without b'\r' value

abbrev pub IsRequest : List ℕ → List Field → Type 0
IsRequest request_line fields = Without b'\r' request_line × All IsField fields

-- RFC 9110, section 5.1: the names of fields are the same in any case.
abbrev pub same_name : List ℕ → List ℕ → Bool
same_name a b = bytes_eq (map tolower a) (map tolower b)

abbrev pub strip : List ℕ → List ℕ
strip [] = []
strip (x ∷ xs) = if is_blank x then strip xs else x ∷ xs

-- The value of the first field of the name, or nothing.
abbrev pub lookup_field : List ℕ → List Field → List ℕ
lookup_field name [] = []
lookup_field name ((n, v) ∷ fields) = if same_name n name then strip v else lookup_field name fields
