-- ===== src/Noise/Replay/Bitmap.antt =====
-- What marking and testing do to the bit of each delta.
use vpn_cloude.Base.{
  ℕ, zero, suc, ◌*◌, ◌/◌, ◌%◌, ◌^◌, ◌≤◌, ◌<◌, ◌≡◌, refl, ◌∙◌, Bool, true, false, not, List, [], ◌∷◌,
  ◌==◌, if◌then◌else◌, length, get_or, set, length-set, get_or-set, get_or-replicate, bit_at,
  bit_at-lt, bit_at-zero, bit_at-bit_or, bit_at-pow, bit_and-pow, bit_or, bit_or-lt, pow-lt, arith,
}
use native.Mathlib.Nat.{one-le-pow}
use vpn_cloude.Noise.Replay.{empty_bitmap, has_delta, mark_delta}

-- The bit of `delta` is set.
abbrev pub marked : List ℕ → ℕ → Bool
marked bitmap delta = bit_at (get_or bitmap (delta / 64) 0) (delta % 64) == 1

-- 32 words of 64 bits.
pub record IsBitmap (bitmap : List ℕ) : Type 0 where
  pub words : length bitmap ≡ 32
  pub fits : (j : ℕ) → get_or bitmap j 0 < 2 ^ 64

pub empty-IsBitmap : IsBitmap empty_bitmap
empty-IsBitmap = record { words = refl; fits = λ j. omega (arith, get_or-replicate {A = ℕ} 32 0 j) }

pub marked-empty : (d : ℕ) → marked empty_bitmap d ≡ false
marked-empty d = rw (get_or-replicate {A = ℕ} 32 0 (d / 64)) (ground (arith, bit_at-zero (d % 64)))

bit_test : (b p : ℕ) → b < 2 → 1 ≤ p → not (b * p == 0) ≡ (b == 1)
bit_test zero p h q = ground arith
bit_test (suc zero) p h q = ground arith
bit_test (suc (suc b)) p h q = absurd (omega arith)

pub has_delta-marked : (bitmap : List ℕ) (d : ℕ) → has_delta bitmap d ≡ marked bitmap d
unfolding has_delta
has_delta-marked bitmap d =
    let word = get_or bitmap (d / 64) 0 in
    let bit = d % 64 in
    rw (bit_and-pow bit word)
      (bit_test (bit_at word bit) (2 ^ bit) (bit_at-lt word bit) (one-le-pow bit 2 (omega arith)))

set-fits :
    (bitmap : List ℕ) (i j w : ℕ)
    → get_or bitmap j 0 < 2 ^ 64
    → w < 2 ^ 64
    → get_or (set bitmap i w) j 0 < 2 ^ 64
set-fits [] i j w h k = h
set-fits (x ∷ xs) zero zero w h k = k
set-fits (x ∷ xs) zero (suc j) w h k = h
set-fits (x ∷ xs) (suc i) zero w h k = h
set-fits (x ∷ xs) (suc i) (suc j) w h k = set-fits xs i j w h k

pub set-IsBitmap :
    (bitmap : List ℕ) (i w : ℕ) → IsBitmap bitmap → w < 2 ^ 64 → IsBitmap (set bitmap i w)
set-IsBitmap bitmap i w v h = record {
  words = length-set bitmap i w ∙ v.words;
  fits = λ j. set-fits bitmap i j w (v.fits j) h;
}

pub mark_delta-IsBitmap :
    (bitmap : List ℕ) (d : ℕ) → IsBitmap bitmap → IsBitmap (mark_delta bitmap d)
unfolding mark_delta
mark_delta-IsBitmap bitmap d v =
    set-IsBitmap bitmap (d / 64) _ v
      (bit_or-lt 64 _ _ (v.fits (d / 64)) (pow-lt (d % 64) 64 (omega arith)))

pub marked-mark_delta :
    (bitmap : List ℕ) (d e : ℕ)
    → IsBitmap bitmap
    → d < 2048
    → marked (mark_delta bitmap d) e ≡ (if d == e then true else marked bitmap e)
unfolding mark_delta
marked-mark_delta bitmap d e v h =
    let old = get_or bitmap (d / 64) 0 in
    let bit = 2 ^ (d % 64) in
    ground (
      arith,
      get_or-set bitmap (d / 64) (e / 64) (bit_or old bit) 0 (omega (arith, v.words)),
      bit_at-bit_or (e % 64) old bit,
      bit_at-pow (d % 64) (e % 64),
      bit_at-lt old (e % 64),
    )
