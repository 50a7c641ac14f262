-- ===== src/Sha1/Digest.antt =====
-- `sha1` on every message of bytes against the whole of RFC 3174: padding, schedule, rounds and output.
use pong_pp.Common.{
  subst, ◌^◌, ℕ, zero, suc, ◌+◌, ◌-◌, ◌*◌, ◌/◌, ◌%◌, ◌<◌, ◌≤◌, ◌≡◌, refl, ◌∙◌, ap, sym, List, [],
  ◌∷◌, ◌++◌, length, u64, take, drop, replicate, All-append, AreBytes, Bool-cases, inl, inr, ltb,
  arith,
}
use pong_pp.Sha1.{initial, output, sha1}
use pong_pp.Sha1.Block.{Hash, process_block}
use pong_pp.Sha1.Rfc.{eight_bytes, zeros, pad, fold_blocks}
use pong_pp.Sha1.Rfc.Block.{rotated, IsSchedule, one_round, run_rounds, IsCompressed, IsHashed}
use pong_pp.Sha1.Block.Rounds.{AreHashWords, process_block-AreHashWords, process_block-IsCompressed}
use pong_pp.Sha1.Padding.{sha1_lem}

-- The schedule of a block is one function below 80.
schedule_below :
    (block : List ℕ) (w w' : ℕ → ℕ)
    → IsSchedule block w
    → IsSchedule block w'
    → (n t : ℕ) → t < n
    → t < 80
    → w t ≡ w' t
unfolding IsSchedule
schedule_below block w w' s s' zero t h below = absurd (omega arith)
schedule_below block w w' s s' (suc n) t h below = elim (Bool-cases (ltb t 16)) [
  | inl early ↦ s.0 t (ground arith) ∙ sym (s'.0 t (ground arith))
  | inr late ↦
      let from : 16 ≤ t = ground arith in
      let ih = schedule_below block w w' s s' n in
      s.1 t from below
      ∙ ap (rotated 1) (
          rw
            (
              ih (t - 3) (omega arith) (omega arith),
              ih (t - 8) (omega arith) (omega arith),
              ih (t - 14) (omega arith) (omega arith),
              ih (t - 16) (omega arith) (omega arith),
            )
            refl)
      ∙ sym (s'.1 t from below)
]

run_rounds_same :
    (w w' : ℕ → ℕ) (n t : ℕ) (v : Hash)
    → ((i : ℕ) → i < t + n → w i ≡ w' i)
    → run_rounds w n t v ≡ run_rounds w' n t v
unfolding run_rounds
run_rounds_same w w' zero t v same = refl
run_rounds_same w w' (suc n) t v same =
    rw (same t (omega arith))
      (run_rounds_same w w' n (t + 1) (one_round t (w' t) v) (λ i h. same i (omega arith)))

IsCompressed-unique :
    (block : List ℕ) (h x y : Hash) → IsCompressed block h x → IsCompressed block h y → x ≡ y
unfolding IsCompressed
IsCompressed-unique block h x y (w, s, e) (w', s', e') =
    e
    ∙ ap
        (λ (v : Hash). record {
          a = (h.a + v.a) % 2 ^ 32;
          b = (h.b + v.b) % 2 ^ 32;
          c = (h.c + v.c) % 2 ^ 32;
          d = (h.d + v.d) % 2 ^ 32;
          e = (h.e + v.e) % 2 ^ 32;
        })
        (run_rounds_same w w' 80 0 h
          (λ i below. schedule_below block w w' s s' 80 i (omega arith) (omega arith)))
    ∙ sym e'

IsHashed-unique :
    (n : ℕ) (bytes : List ℕ) (h x y : Hash) → IsHashed n bytes h x → IsHashed n bytes h y → x ≡ y
unfolding IsHashed
IsHashed-unique zero bytes h x y e e' = e ∙ sym e'
IsHashed-unique (suc n) bytes h x y (m, c, r) (m', c', r') =
    IsHashed-unique n (drop 64 bytes) m' x y
      (subst (λ k. IsHashed n (drop 64 bytes) k x) (IsCompressed-unique (take 64 bytes) h m m' c c')
        r)
      r'

take-AreBytes : (n : ℕ) (xs : List ℕ) → AreBytes xs → AreBytes (take n xs)
take-AreBytes zero xs h = tt
take-AreBytes (suc n) [] h = tt
take-AreBytes (suc n) (x ∷ xs) h = (h.0, take-AreBytes n xs h.1)

drop-AreBytes : (n : ℕ) (xs : List ℕ) → AreBytes xs → AreBytes (drop n xs)
drop-AreBytes zero xs h = h
drop-AreBytes (suc n) [] h = tt
drop-AreBytes (suc n) (x ∷ xs) h = drop-AreBytes n xs h.1

zeros-AreBytes : (n : ℕ) → AreBytes (replicate n 0)
zeros-AreBytes zero = tt
zeros-AreBytes (suc n) = (omega arith, zeros-AreBytes n)

eight_bytes-AreBytes : (n : ℕ) → AreBytes (eight_bytes n)
eight_bytes-AreBytes n = omega arith

pad-AreBytes : (message : List ℕ) → AreBytes message → AreBytes (pad message)
pad-AreBytes message h =
    let bits = u64 (length message * 8) in
    let fill : List ℕ = replicate (zeros (length message)) 0 in
    All-append (λ b. b < 256) (message ++ 0x80 ∷ fill) (eight_bytes bits)
      (All-append (λ b. b < 256) message (0x80 ∷ fill) h
        (omega arith, zeros-AreBytes (zeros (length message))))
      (eight_bytes-AreBytes bits)

-- Each block is that of the RFC.
fold_blocks-IsHashed :
    (n : ℕ) (bytes : List ℕ) (h : Hash)
    → AreBytes bytes
    → AreHashWords h
    → IsHashed n bytes h (fold_blocks n bytes h)
unfolding IsHashed fold_blocks
fold_blocks-IsHashed zero bytes h all words = refl
fold_blocks-IsHashed (suc n) bytes h all words = (
  process_block (take 64 bytes) h,
  process_block-IsCompressed (take 64 bytes) h (take-AreBytes 64 bytes all) words,
  fold_blocks-IsHashed n (drop 64 bytes) (process_block (take 64 bytes) h)
      (drop-AreBytes 64 bytes all) (process_block-AreHashWords (take 64 bytes) h),
)

initial-AreHashWords : AreHashWords initial
unfolding AreHashWords
initial-AreHashWords = (omega arith, omega arith, omega arith, omega arith, omega arith)

-- For every message of bytes the padded message is a whole number of blocks, and the digest is the
-- output of a hash that the padding, the schedule, the 80 rounds and the sums of RFC 3174 give for
-- it, which is the only such hash.
pub sha1-IsHashed :
    (message : List ℕ)
    → AreBytes message
    → (length (pad message) % 64 ≡ 0)
      × ((h : Hash) × IsHashed (length (pad message) / 64) (pad message) initial h
          × (sha1 message ≡ output h)
          × ((other : Hash)
              → IsHashed (length (pad message) / 64) (pad message) initial other
              → other ≡ h))
sha1-IsHashed message bytes =
    let n = length (pad message) / 64 in
    let h = fold_blocks n (pad message) initial in
    let hashed =
      fold_blocks-IsHashed n (pad message) initial (pad-AreBytes message bytes)
        initial-AreHashWords in
    (
      (sha1_lem message).1,
      (
        h,
        hashed,
        (sha1_lem message).0,
        λ other is. IsHashed-unique n (pad message) initial other h is hashed,
      ),
    )
