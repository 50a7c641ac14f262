-- ===== src/Common/Find.antt =====
-- std::string::find: the first place from `pos` on where the pattern stands; `none` is npos.
use Prim.Native.Nat.{ℕ, zero, suc, ◌+◌, ◌≤◌, ◌<◌}
use mathlib.Core.Path.{◌≡◌, refl}
use mathlib.Core.Bool.{Bool, true, false, ◌&&◌}
use mathlib.Core.Option
use mathlib.Core.Option.{Option, none, some}
use mathlib.Core.List.{List, [], ◌∷◌, ◌++◌}
use native.Mathlib.Omega.{arith}
use pong_pp.Common.Tests.{◌==◌, if◌then◌else◌, Option-cases}
use mathlib.Core.Logic.{◌≢◌, inl, inr}
use pong_pp.Common.Lists.{length, drop, All}

abbrev pub starts_with : List ℕ → List ℕ → Bool
starts_with [] xs = true
starts_with (p ∷ pat) [] = false
starts_with (p ∷ pat) (x ∷ xs) = p == x && starts_with pat xs

unfoldable pub find_here : List ℕ → List ℕ → Option ℕ
find_here pat [] = if starts_with pat [] then some 0 else none
find_here pat (x ∷ xs) =
    if starts_with pat (x ∷ xs) then some 0 else Option.map suc (find_here pat xs)

unfoldable pub find : List ℕ → List ℕ → ℕ → Option ℕ
find pat buf pos = Option.map (◌+◌ pos) (find_here pat (drop pos buf))

-- The byte stands nowhere in the list.
abbrev pub Without : ℕ → List ℕ → Type 0
Without c = All (λ x. x ≢ c)

starts_with_self : (pat rest : List ℕ) → starts_with pat (pat ++ rest) ≡ true
starts_with_self [] rest = refl
starts_with_self (p ∷ pat) rest = ground (arith, starts_with_self pat rest)

-- The first place of a pattern whose first byte does not stand before it.
pub find_here-first :
    (p : ℕ) (pat xs rest : List ℕ)
    → Without p xs
    → find_here (p ∷ pat) (xs ++ ((p ∷ pat) ++ rest)) ≡ some (length xs)
unfolding find_here
find_here-first p pat [] rest w = ground (arith, starts_with_self pat rest)
find_here-first p pat (x ∷ xs) rest w = ground (arith, find_here-first p pat xs rest w.1)

pub find-first :
    (p : ℕ) (pat buf xs rest : List ℕ) (pos : ℕ)
    → drop pos buf ≡ xs ++ ((p ∷ pat) ++ rest)
    → Without p xs
    → find (p ∷ pat) buf pos ≡ some (pos + length xs)
unfolding find
find-first p pat buf xs rest pos e w = rw (e, find_here-first p pat xs rest w) refl

starts_with-append :
    (pat xs more : List ℕ)
    → starts_with pat xs ≡ true
    → (starts_with pat (xs ++ more) ≡ true) × (length pat ≤ length xs)
starts_with-append [] xs more h = (refl, omega arith)
starts_with-append (p ∷ pat) [] more h = ground arith
starts_with-append (p ∷ pat) (x ∷ xs) more h = ground (arith, starts_with-append pat xs more)

not-starts_with-append :
    (pat xs more : List ℕ)
    → starts_with pat xs ≡ false
    → length pat ≤ length xs
    → starts_with pat (xs ++ more) ≡ false
not-starts_with-append [] xs more h e = h
not-starts_with-append (p ∷ pat) [] more h e = absurd (omega arith)
not-starts_with-append (p ∷ pat) (x ∷ xs) more h e =
    ground (arith, not-starts_with-append pat xs more)

-- What is found in a text lies wholly in it.
pub find_here-le :
    (p : ℕ) (pat xs : List ℕ) (i : ℕ)
    → find_here (p ∷ pat) xs ≡ some i
    → i + length (p ∷ pat) ≤ length xs
unfolding find_here
find_here-le p pat [] i e = ground arith
find_here-le p pat (x ∷ xs) zero e =
    ground (arith, starts_with-append (p ∷ pat) (x ∷ xs) [], find_here-le p pat xs zero)
find_here-le p pat (x ∷ xs) (suc i) e = ground (arith, find_here-le p pat xs i)

-- And it is found there first also if bytes are appended.
pub find_here-append :
    (p : ℕ) (pat xs more : List ℕ) (i : ℕ)
    → find_here (p ∷ pat) xs ≡ some i
    → find_here (p ∷ pat) (xs ++ more) ≡ some i
unfolding find_here
find_here-append p pat [] more i e = ground arith
find_here-append p pat (x ∷ xs) more zero e =
    ground (arith, starts_with-append (p ∷ pat) (x ∷ xs) more, find_here-append p pat xs more zero)
find_here-append p pat (x ∷ xs) more (suc i) e = ground (
  arith,
  not-starts_with-append (p ∷ pat) (x ∷ xs) more,
  find_here-le p pat xs i,
  find_here-append p pat xs more i,
)

-- A text that ends before the pattern does has no such place.
pub find-none :
    (p : ℕ) (pat xs more : List ℕ) (i : ℕ)
    → find_here (p ∷ pat) (xs ++ more) ≡ some i
    → length xs < i + length (p ∷ pat)
    → find (p ∷ pat) xs 0 ≡ none
unfolding find
find-none p pat xs more i e short = elim (Option-cases (find_here (p ∷ pat) xs)) [
  | inl missing ↦ rw missing refl
  | inr (j, found) ↦
      absurd (ground (arith, find_here-append p pat xs more j, find_here-le p pat xs j))
]
