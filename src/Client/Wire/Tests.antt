-- ===== src/Client/Wire/Tests.antt =====
-- A message of src/client/main.cpp, written and read.
use pong_pp.Common.{◌≡◌, refl, List, [], ◌∷◌, codes}
use pong_pp.Common.Int.{ℤ, pos, negsuc}
use pong_pp.Client.Wire.{message, fields, int_to_str, low_digits, backwards}

abbrev paddle : List ℤ
paddle = pos 640 ∷ negsuc 11 ∷ []

written : message b'P' paddle ≡ codes "P 640 -12"
unfolding message fields int_to_str low_digits backwards
written = refl
