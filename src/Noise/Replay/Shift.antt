-- ===== src/Noise/Replay/Shift.antt =====
-- The bits of the bitmap through `advanceLocked` of pkg/noise/replay.go.
use native.Mathlib.Nat.{div-le_self}
use vpn_cloude.Base.{
  ℕ, zero, suc, ◌+◌, ◌-◌, ◌*◌, ◌/◌, ◌%◌, ◌^◌, ◌≤◌, ◌<◌, ◌≡◌, refl, ◌∙◌, false, List, ltb, lt→ltb,
  leb, if◌then◌else◌, length, get_or, set, length-set, get_or-set, bit_at, bit_at-zero,
  bit_at_above, bit_at-bit_or, bit_at-shift_left, bit_at-shift_right, bit_at-low_bits, bit_or,
  bit_or-lt, arith,
}
use vpn_cloude.Noise.Replay.{move_words, shift_bits, advance}
use vpn_cloude.Noise.Replay.Bitmap.{marked, IsBitmap, empty-IsBitmap, set-IsBitmap, marked-empty}

-- A word of the bitmap, with 0 outside it.
abbrev word : List ℕ → ℕ → ℕ
word bitmap j = get_or bitmap j 0

length-move_words : (s n : ℕ) (b : List ℕ) → length (move_words s n b) ≡ length b
unfolding move_words
length-move_words s zero b = refl
length-move_words s (suc i) b =
    length-move_words s i _ ∙ length-set b i (if leb s i then word b (i - s) else 0)

-- The loop runs downwards, so it reads each word before it overwrites it.
word-move_words :
    (s n j : ℕ) (b : List ℕ)
    → 0 < s
    → n ≤ length b
    → word (move_words s n b) j
      ≡ (if ltb j n then (if leb s j then word b (j - s) else 0) else word b j)
unfolding move_words
word-move_words s zero j b h le = ground arith
word-move_words s (suc i) j b h le =
    let v = if leb s i then word b (i - s) else 0 in
    ground (
      arith,
      length-set b i v,
      word-move_words s i j (set b i v) h,
      get_or-set b i j v 0 (omega arith),
      get_or-set b i (j - s) v 0 (omega arith),
    )

-- A word after `<<` by `s` bits, with the top bits of the word before it.
abbrev shifted : ℕ → List ℕ → ℕ → ℕ
shifted s b i =
    bit_or (word b i * 2 ^ s % 2 ^ 64) (if ltb 0 i then word b (i - 1) / 2 ^ (64 - s) else 0)

length-shift_bits : (s n : ℕ) (b : List ℕ) → length (shift_bits s n b) ≡ length b
unfolding shift_bits
length-shift_bits s zero b = refl
length-shift_bits s (suc i) b = length-shift_bits s i _ ∙ length-set b i (shifted s b i)

word-shift_bits :
    (s n j : ℕ) (b : List ℕ)
    → n ≤ length b
    → word (shift_bits s n b) j ≡ (if ltb j n then shifted s b j else word b j)
unfolding shift_bits
word-shift_bits s zero j b le = ground arith
word-shift_bits s (suc i) j b le =
    let v = shifted s b i in
    ground (
      arith,
      length-set b i v,
      word-shift_bits s i j (set b i v),
      get_or-set b i j v 0 (omega arith),
      get_or-set b i (j - 1) v 0 (omega arith),
    )

-- The two parts of a shifted word do not overlap.
module _ (s k : ℕ) (w : ℕ) (k_in : k < 64) where
  bit_at-low : bit_at (w * 2 ^ s % 2 ^ 64) k ≡ (if leb s k then bit_at w (k - s) else 0)
  bit_at-low = ground (arith, bit_at-low_bits 64 k (w * 2 ^ s), bit_at-shift_left s k w)

  bit_at-carry :
      0 < s
      → s < 64
      → w < 2 ^ 64
      → bit_at (w / 2 ^ (64 - s)) k ≡ (if leb s k then 0 else bit_at w (64 - s + k))
  bit_at-carry h h' fits =
      ground (arith, bit_at-shift_right (64 - s) k w, bit_at_above 64 (64 - s + k) w fits)

-- The bit of a shifted word.
abbrev shifted_bit : ℕ → ℕ → ℕ → List ℕ → ℕ
shifted_bit s zero k b = if leb s k then bit_at (word b 0) (k - s) else 0
shifted_bit s (suc i) k b =
    if leb s k then bit_at (word b (suc i)) (k - s) else bit_at (word b i) (64 - s + k)

bit_at-shifted :
    (s i k : ℕ) (b : List ℕ)
    → 0 < s
    → s < 64
    → k < 64
    → IsBitmap b
    → bit_at (shifted s b i) k ≡ shifted_bit s i k b
bit_at-shifted s zero k b h h' hk v =
    let low = word b 0 * 2 ^ s % 2 ^ 64 in
    ground (arith, bit_at-bit_or k low 0, bit_at-zero k, bit_at-low s k (word b 0) hk)
bit_at-shifted s (suc i) k b h h' hk v =
    let low = word b (suc i) * 2 ^ s % 2 ^ 64 in
    let carry = word b i / 2 ^ (64 - s) in
    let before : suc i - 1 ≡ i = omega arith in
    rw before (
      ground (
        arith,
        bit_at-bit_or k low carry,
        bit_at-low s k (word b (suc i)) hk,
        bit_at-carry s k (word b i) hk h h' (v.fits i),
      ))

abbrev bit : List ℕ → ℕ → ℕ
bit b d = bit_at (word b (d / 64)) (d % 64)

-- One lemma for each of the two loops, over the deltas of the window.
bit-move_words :
    (s d : ℕ) (b : List ℕ)
    → length b ≡ 32
    → 0 < s
    → d < 2048
    → bit (move_words s 32 b) d ≡ (if leb (s * 64) d then bit b (d - s * 64) else 0)
bit-move_words s d b e h hd =
    let from : (s ≤ d / 64) → (d - s * 64) / 64 ≡ d / 64 - s = λ p. omega arith in
    let same : (s ≤ d / 64) → (d - s * 64) % 64 ≡ d % 64 = λ p. omega arith in
    rw (word-move_words s 32 (d / 64) b h (omega arith))
      (ground (arith, from, same, bit_at-zero (d % 64)))

shifted_bit-bit :
    (s i k : ℕ) (b : List ℕ)
    → 0 < s
    → s < 64
    → k < 64
    → shifted_bit s i k b ≡ (if leb s (i * 64 + k) then bit b (i * 64 + k - s) else 0)
shifted_bit-bit s zero k b h h' hk =
    let at_word : (0 * 64 + k - s) / 64 ≡ 0 = omega arith in
    let at_bit : (0 * 64 + k - s) % 64 ≡ k - s = omega arith in ground (arith, at_word, at_bit)
shifted_bit-bit s (suc i) k b h h' hk =
    let at_word : s ≤ k → (suc i * 64 + k - s) / 64 ≡ suc i = λ p. omega arith in
    let at_bit : s ≤ k → (suc i * 64 + k - s) % 64 ≡ k - s = λ p. omega arith in
    let before_word : k < s → (suc i * 64 + k - s) / 64 ≡ i = λ p. omega arith in
    let before_bit : k < s → (suc i * 64 + k - s) % 64 ≡ 64 - s + k = λ p. omega arith in
    ground (arith, at_word, at_bit, before_word, before_bit)

bit-shift_bits :
    (s d : ℕ) (b : List ℕ)
    → IsBitmap b
    → 0 < s
    → s < 64
    → d < 2048
    → bit (shift_bits s 32 b) d ≡ (if leb s d then bit b (d - s) else 0)
bit-shift_bits s d b v h h' hd =
    let whole : d / 64 * 64 + d % 64 ≡ d = omega arith in
    rw (word-shift_bits s 32 (d / 64) b (omega (arith, v.words))) (
      ground
        (arith, whole, bit_at-shifted s (d / 64) (d % 64) b, shifted_bit-bit s (d / 64) (d % 64) b))

-- Both loops keep the words below 2 ^ 64.
move_words-IsBitmap : (s n : ℕ) (b : List ℕ) → IsBitmap b → IsBitmap (move_words s n b)
unfolding move_words
move_words-IsBitmap s zero b v = v
move_words-IsBitmap s (suc i) b v =
    move_words-IsBitmap s i _ (set-IsBitmap b i _ v (ground (arith, v.fits (i - s))))

shift_bits-IsBitmap : (s n : ℕ) (b : List ℕ) → 0 < s → IsBitmap b → IsBitmap (shift_bits s n b)
unfolding shift_bits
shift_bits-IsBitmap s zero b h v = v
shift_bits-IsBitmap s (suc i) b h v = shift_bits-IsBitmap s i _ h (
    set-IsBitmap b i _ v (
      bit_or-lt 64 _ _ (omega arith)
        (ground (arith, div-le_self (word b (i - 1)) (2 ^ (64 - s)), v.fits (i - 1)))))

pub advance-IsBitmap : (b : List ℕ) (delta : ℕ) → IsBitmap b → IsBitmap (advance b delta)
unfolding advance
advance-IsBitmap b delta v = ground (
  arith,
  empty-IsBitmap,
  v,
  move_words-IsBitmap (delta / 64) 32 b v,
  shift_bits-IsBitmap (delta % 64) 32 b,
  shift_bits-IsBitmap (delta % 64) 32 (move_words (delta / 64) 32 b),
)

-- The bitmap between the two loops.
abbrev moved : ℕ → List ℕ → List ℕ
moved s b = if ltb 0 s then move_words s 32 b else b

moved-IsBitmap : (s : ℕ) (b : List ℕ) → IsBitmap b → IsBitmap (moved s b)
moved-IsBitmap s b v = ground (arith, v, move_words-IsBitmap s 32 b v)

bit-moved :
    (s d : ℕ) (b : List ℕ)
    → length b ≡ 32
    → d < 2048
    → bit (moved s b) d ≡ (if leb (s * 64) d then bit b (d - s * 64) else 0)
bit-moved zero d b e h = ground arith
bit-moved (suc s) d b e h =
    rw (lt→ltb 0 (suc s) (omega arith)) (bit-move_words (suc s) d b e (omega arith) h)

bit-moved_shifted :
    (s t d : ℕ) (b : List ℕ)
    → IsBitmap b
    → t < 64
    → d < 2048
    → bit (if ltb 0 t then shift_bits t 32 (moved s b) else moved s b) d
      ≡ (if leb (s * 64 + t) d then bit b (d - (s * 64 + t)) else 0)
bit-moved_shifted s zero d b v h h' =
    let sum : s * 64 + 0 ≡ s * 64 = omega arith in rw sum (bit-moved s d b v.words h')
bit-moved_shifted s (suc t) d b v h h' =
    let rest : d - suc t - s * 64 ≡ d - (s * 64 + suc t) = omega arith in
    rw
      (
        lt→ltb 0 (suc t) (omega arith),
        bit-shift_bits (suc t) d (moved s b) (moved-IsBitmap s b v) (omega arith) h h',
      )
      (rw (bit-moved s (d - suc t) b v.words (omega arith)) (rw rest (ground arith)))

-- After an advance by `delta` the bit at `d` is the bit that stood at `d - delta`.
pub marked-advance :
    (b : List ℕ) (delta d : ℕ)
    → IsBitmap b
    → d < 2048
    → marked (advance b delta) d ≡ (if leb delta d then marked b (d - delta) else false)
unfolding advance
marked-advance b delta d v h =
    let whole : delta / 64 * 64 + delta % 64 ≡ delta = omega arith in
    ground (arith, whole, marked-empty d, bit-moved_shifted (delta / 64) (delta % 64) d b v)
