-- ===== src/Sha1/Block/Rounds.antt =====
-- The 80 rounds and the sum of `process_block` are those of RFC 3174.
use pong_pp.Common.{
  ℕ, suc, ◌+◌, ◌<◌, ◌≡◌, refl, ◌∙◌, ap, List, [], ◌∷◌, length, get_or, AreBytes, arith,
}
use native.Mathlib.Nat.{mod-lt}
use pong_pp.Sha1.Block.{
  Hash, mix, constant, round, rounds, load_words, extend, add_hash, process_block,
}
use pong_pp.Sha1.Rfc.Block.{rotated, f_of, k_of, one_round, run_rounds, IsCompressed}
use pong_pp.Sha1.Block.Words.{
  IsWord, leftrotate-five, leftrotate-thirty, leftrotate-lt, complement_lem,
}
use pong_pp.Sha1.Block.Schedule.{extend-IsSchedule, length-extend}

-- Five words.
unfoldable pub AreHashWords : Hash → Type 0
AreHashWords v = IsWord v.a × IsWord v.b × IsWord v.c × IsWord v.d × IsWord v.e

mix_lem : (t : ℕ) (v : Hash) → IsWord v.b → mix t v ≡ f_of t v.b v.c v.d
unfolding mix
mix_lem t v h = rw (complement_lem v.b h) refl

constant_lem : (t : ℕ) → constant t ≡ k_of t
unfolding constant
constant_lem t = refl

round_lem : (t word : ℕ) (v : Hash) → AreHashWords v → round t word v ≡ one_round t word v
unfolding round one_round AreHashWords
round_lem t word v (ha, hb, hc, hd, he) =
    let order : rotated 5 v.a + f_of t v.b v.c v.d + v.e + k_of t + word
        ≡ rotated 5 v.a + f_of t v.b v.c v.d + v.e + word + k_of t =
      omega arith in
    rw (leftrotate-five v.a ha, leftrotate-thirty v.b hb, mix_lem t v hb, constant_lem t, order)
      refl

round-AreHashWords : (t word : ℕ) (v : Hash) → AreHashWords v → AreHashWords (round t word v)
unfolding round AreHashWords
round-AreHashWords t word v (ha, hb, hc, hd, he) =
    (mod-lt _ (omega arith), ha, leftrotate-lt v.b 30 hb, hc, hd)

rounds-run_rounds :
    (w : ℕ → ℕ) (ws : List ℕ) (t : ℕ) (v : Hash)
    → AreHashWords v
    → ((i : ℕ) → i < length ws → get_or ws i 0 ≡ w (t + i))
    → rounds t ws v ≡ run_rounds w (length ws) t v
unfolding rounds run_rounds
rounds-run_rounds w [] t v h same = refl
rounds-run_rounds w (x ∷ ws) t v h same =
    let first : x ≡ w t = same 0 (omega arith) ∙ ap w {x = t + 0} {y = t} (omega arith) in
    rounds-run_rounds w ws (t + 1) (round t x v) (round-AreHashWords t x v h)
      (λ i below. same (suc i) (omega arith) ∙ ap w {x = t + suc i} {y = t + 1 + i} (omega arith))
    ∙ ap (run_rounds w (length ws) (t + 1)) (round_lem t x v h ∙ ap (λ y. one_round t y v) first)

pub process_block-AreHashWords : (block : List ℕ) (h : Hash) → AreHashWords (process_block block h)
unfolding process_block AreHashWords
process_block-AreHashWords block h = (
  mod-lt _ (omega arith),
  mod-lt _ (omega arith),
  mod-lt _ (omega arith),
  mod-lt _ (omega arith),
  mod-lt _ (omega arith),
)

-- The function on one block of bytes is that of the RFC.
pub process_block-IsCompressed :
    (block : List ℕ) (h : Hash)
    → AreBytes block
    → AreHashWords h
    → IsCompressed block h (process_block block h)
unfolding process_block IsCompressed
process_block-IsCompressed block h bytes words =
    let ws = extend 64 16 (load_words 16 0 block) in
    let w : ℕ → ℕ = λ t. get_or ws t 0 in
    (
      w,
      extend-IsSchedule block bytes,
      ap (add_hash h) (
          rounds-run_rounds w ws 0 h words (λ i below. ap w {x = i} {y = 0 + i} (omega arith))
          ∙ ap (λ n. run_rounds w n 0 h) (length-extend block bytes)),
    )
