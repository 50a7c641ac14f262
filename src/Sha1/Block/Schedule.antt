-- ===== src/Sha1/Block/Schedule.antt =====
-- The array `w` of a block holds the words of RFC 3174.
use pong_pp.Common.{
  ℕ, zero, suc, ◌+◌, ◌-◌, ◌<◌, ◌≤◌, ◌≡◌, refl, ◌∙◌, ap, sym, subst, Bool-cases, inl, inr, ◌==◌,
  List, [], ◌∷◌, ◌++◌, length, length-append, get_or, get_or-append, All, All-append, AreBytes,
  bit_xor, arith,
}
use pong_pp.Common.Bits.{bit_xor-lt}
use pong_pp.Sha1.Block.{leftrotate, load_word, load_words, extend}
use pong_pp.Sha1.Rfc.Block.{IsSchedule}
use pong_pp.Sha1.Block.Words.{IsWord, leftrotate-one, leftrotate-lt, load_word_lem, load_word-lt}

length-load_words : (n i : ℕ) (block : List ℕ) → length (load_words n i block) ≡ n
unfolding load_words
length-load_words zero i block = refl
length-load_words (suc n) i block = omega (arith, length-load_words n (i + 1) block)

get_or-load_words :
    (n i : ℕ) (block : List ℕ) (t : ℕ)
    → t < n
    → get_or (load_words n i block) t 0 ≡ load_word block (i + t)
unfolding load_words
get_or-load_words zero i block t h = absurd (omega arith)
get_or-load_words (suc n) i block zero h = ap (load_word block) (omega arith)
get_or-load_words (suc n) i block (suc t) h =
    get_or-load_words n (i + 1) block t (omega arith) ∙ ap (load_word block) (omega arith)

AreWords : List ℕ → Type 0
AreWords = All IsWord

load_words-AreWords : (n i : ℕ) (block : List ℕ) → AreBytes block → AreWords (load_words n i block)
unfolding load_words AreWords
load_words-AreWords zero i block h = tt
load_words-AreWords (suc n) i block h =
    (load_word-lt block i h, load_words-AreWords n (i + 1) block h)

get_or-AreWords : (w : List ℕ) (i : ℕ) → AreWords w → IsWord (get_or w i 0)
unfolding AreWords
get_or-AreWords [] i h = omega arith
get_or-AreWords (x ∷ w) zero h = h.0
get_or-AreWords (x ∷ w) (suc i) h = get_or-AreWords w i h.1

-- What is rotated for the word `t`.
abbrev mixed : List ℕ → ℕ → ℕ
mixed w t =
    bit_xor (bit_xor (bit_xor (get_or w (t - 3) 0) (get_or w (t - 8) 0)) (get_or w (t - 14) 0))
      (get_or w (t - 16) 0)

mixed-lt : (w : List ℕ) (t : ℕ) → AreWords w → IsWord (mixed w t)
mixed-lt w t h =
    bit_xor-lt 32 _ _
      (bit_xor-lt 32 _ _
        (bit_xor-lt 32 _ _ (get_or-AreWords w (t - 3) h) (get_or-AreWords w (t - 8) h))
        (get_or-AreWords w (t - 14) h))
      (get_or-AreWords w (t - 16) h)

last_of : (w : List ℕ) (x i : ℕ) → length w ≡ i → get_or (w ++ x ∷ []) i 0 ≡ x
last_of [] x i e = rw (← e) refl
last_of (y ∷ w) x zero e = absurd (omega (arith, e))
last_of (y ∷ w) x (suc i) e = last_of w x i (omega (arith, e))

mixed_same :
    (w w' : List ℕ) (t : ℕ)
    → 16 ≤ t
    → ((s : ℕ) → s < t → get_or w' s 0 ≡ get_or w s 0)
    → mixed w' t ≡ mixed w t
mixed_same w w' t far same =
    rw
      (
        same (t - 3) (omega arith),
        same (t - 8) (omega arith),
        same (t - 14) (omega arith),
        same (t - 16) (omega arith),
      )
      refl

-- The word `i` and those behind it.
new_word :
    (i end : ℕ) (w : List ℕ) (t : ℕ)
    → i ≤ t
    → t < end
    → get_or w i 0 ≡ leftrotate (mixed w i) 1
    → ((s : ℕ) → i + 1 ≤ s → s < end → get_or w s 0 ≡ leftrotate (mixed w s) 1)
    → get_or w t 0 ≡ leftrotate (mixed w t) 1
new_word i end w t from below here later = elim (Bool-cases (t == i)) [
  | inl e ↦
      let same : i ≡ t = ground arith in
      subst (λ s. get_or w s 0 ≡ leftrotate (mixed w s) 1) same here
  | inr e ↦ later t (ground arith) below
]

-- What is known of the array after the loop: its length and its words, those that were there and the new ones.
IsExtended : ℕ → ℕ → List ℕ → List ℕ → Type 0
IsExtended n i w w' =
    (length w' ≡ i + n)
    × AreWords w'
    × ((t : ℕ) → t < i → get_or w' t 0 ≡ get_or w t 0)
    × ((t : ℕ) → i ≤ t → t < i + n → get_or w' t 0 ≡ leftrotate (mixed w' t) 1)

extend-IsExtended :
    (n i : ℕ) (w : List ℕ) → length w ≡ i → 16 ≤ i → AreWords w → IsExtended n i w (extend n i w)
unfolding extend IsExtended AreWords
extend-IsExtended zero i w e far words =
    (omega (arith, e), words, (λ t h. refl), (λ t h h'. absurd (omega arith)))
extend-IsExtended (suc n) i w e far words =
    let x = leftrotate (mixed w i) 1 in
    let (size, all, old, new) =
      extend-IsExtended n (i + 1) (w ++ x ∷ []) (length-append w (x ∷ []) ∙ ap (λ k. k + 1) e)
        (omega arith)
        (All-append IsWord w (x ∷ []) words
          (leftrotate-lt (mixed w i) 1 (mixed-lt w i words), tt)) in
    let kept : (t : ℕ) → t < i → get_or (extend n (i + 1) (w ++ x ∷ [])) t 0 ≡ get_or w t 0 =
      λ t h. old t (omega arith) ∙ get_or-append w (x ∷ []) t 0 (omega (arith, e)) in
    (
      omega (arith, size),
      all,
      kept,
      λ t from below.
          new_word i (i + suc n) (extend n (i + 1) (w ++ x ∷ [])) t from below
            (old i (omega arith)
              ∙ last_of w x i e
              ∙ ap (λ y. leftrotate y 1)
                  (sym (mixed_same w (extend n (i + 1) (w ++ x ∷ [])) i far kept)))
            (λ s from' below'. new s from' (omega arith)),
    )

pub length-extend :
    (block : List ℕ) → AreBytes block → length (extend 64 16 (load_words 16 0 block)) ≡ 80
unfolding IsExtended
length-extend block h =
    (extend-IsExtended 64 16 (load_words 16 0 block) (length-load_words 16 0 block) (omega arith)
      (load_words-AreWords 16 0 block h)).0

-- The words of a block of bytes are those of the RFC.
pub extend-IsSchedule :
    (block : List ℕ)
    → AreBytes block
    → IsSchedule block (λ t. get_or (extend 64 16 (load_words 16 0 block)) t 0)
unfolding IsSchedule IsExtended
extend-IsSchedule block h =
    let (size, all, old, new) =
      extend-IsExtended 64 16 (load_words 16 0 block) (length-load_words 16 0 block) (omega arith)
        (load_words-AreWords 16 0 block h) in
    (
      λ t below.
          old t below
          ∙ get_or-load_words 16 0 block t below
          ∙ ap (load_word block) (omega arith)
          ∙ load_word_lem block t h,
      λ t from below. new t from below ∙ leftrotate-one _ (mixed-lt _ t all),
    )
