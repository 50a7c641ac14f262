-- ===== src/Ws/Connection/Write.antt =====
-- `Connection::Write`: the loop over partial writes.
use pong_pp.Common.{
  ℕ, ◌+◌, ◌≤◌, ◌≡◌, refl, ap, ◌∙◌, List, [], ◌∷◌, ◌++◌, length, length-drop, take, drop,
  take-append-drop, append_assoc, arith,
}

-- What a call of `::write` returns: a count of bytes, EINTR, or another error.
pub data WriteCall : Type 0 where
  wrote : ℕ → WriteCall
  interrupted failed : WriteCall

-- The bytes that the calls take, one after the other; the loop waits in a call that has not
-- returned.
pub write_all : List WriteCall → List ℕ → List ℕ
write_all calls [] = []
write_all [] (x ∷ s) = []
write_all (wrote n ∷ calls) (x ∷ s) = take n (x ∷ s) ++ write_all calls (drop n (x ∷ s))
write_all (interrupted ∷ calls) (x ∷ s) = write_all calls (x ∷ s)
write_all (failed ∷ calls) (x ∷ s) = []

-- What reaches the socket is the front of what was to be sent, whatever the calls return.
pub write_all-prefix :
    (calls : List WriteCall) (s : List ℕ) → (rest : List ℕ) × (write_all calls s ++ rest ≡ s)
unfolding write_all
write_all-prefix calls [] = ([], refl)
write_all-prefix [] (x ∷ s) = (x ∷ s, refl)
write_all-prefix (wrote n ∷ calls) (x ∷ s) =
    let (rest, e) = write_all-prefix calls (drop n (x ∷ s)) in
    (
      rest,
      append_assoc (take n (x ∷ s)) (write_all calls (drop n (x ∷ s))) rest
          ∙ ap (◌++◌ (take n (x ∷ s))) e
          ∙ take-append-drop n (x ∷ s),
    )
write_all-prefix (interrupted ∷ calls) (x ∷ s) = write_all-prefix calls (x ∷ s)
write_all-prefix (failed ∷ calls) (x ∷ s) = (x ∷ s, refl)

-- The bytes that the calls can take, if none of them fails.
abbrev pub capacity : List WriteCall → ℕ
capacity [] = 0
capacity (wrote n ∷ calls) = n + capacity calls
capacity (interrupted ∷ calls) = capacity calls
capacity (failed ∷ calls) = 0

-- Calls that take enough bytes before one of them fails take all of the message, in whatever parts
-- and with whatever interruptions.
pub write_all_whole :
    (calls : List WriteCall) (s : List ℕ) → length s ≤ capacity calls → write_all calls s ≡ s
unfolding write_all
write_all_whole calls [] h = refl
write_all_whole [] (x ∷ s) h = absurd (omega arith)
write_all_whole (wrote n ∷ calls) (x ∷ s) h =
    ap (◌++◌ (take n (x ∷ s)))
      (write_all_whole calls (drop n (x ∷ s)) (omega (arith, length-drop n (x ∷ s))))
    ∙ take-append-drop n (x ∷ s)
write_all_whole (interrupted ∷ calls) (x ∷ s) h = write_all_whole calls (x ∷ s) h
write_all_whole (failed ∷ calls) (x ∷ s) h = absurd (omega arith)
