-- ===== src/Base/Bits.antt =====
-- Bits of a number, and what `|`, `&` and the shifts of a word do to each of them.
use Prim.Native.Nat.{
  ℕ, zero, suc, ◌+◌, ◌-◌, ◌*◌, ◌/◌, ◌%◌, ◌^◌, ◌≤◌, ◌<◌, min, max, bit_and, bit_or, digits, bitwise,
  bit_and-bitwise, bit_or-bitwise,
}
use mathlib.Core.Path.{◌≡◌, refl, sym, ap, ◌∙◌}
use native.Mathlib.Nat.{
  pow-suc, mul-one, one-le-pow, mod-one, div-one, zero-add, suc-add, div-add-mod,
  div-div-eq-div-mul,
}
use native.Mathlib.Omega.{arith}
use vpn_cloude.Base.Tests.{ltb, ◌==◌, if◌then◌else◌}

-- Digit `i` of the binary form of a number.
abbrev pub bit_at : ℕ → ℕ → ℕ
bit_at a zero = a % 2
bit_at a (suc i) = bit_at (a / 2) i

module _ (z : ℕ → ℕ) (f : ℕ → ℕ → ℕ) where
  digits-enough : (n m a b : ℕ) → (a ≤ n) → (a ≤ m) → digits z f n a b ≡ digits z f m a b
  digits-enough zero zero a b p q = refl
  digits-enough zero (suc m) zero b p q = refl
  digits-enough zero (suc m) (suc a) b p q = absurd (omega arith)
  digits-enough (suc n) zero zero b p q = refl
  digits-enough (suc n) zero (suc a) b p q = absurd (omega arith)
  digits-enough (suc n) (suc m) zero b p q = refl
  digits-enough (suc n) (suc m) (suc a) b p q =
      omega (arith, digits-enough n m (suc a / 2) (b / 2) (omega arith) (omega arith))

  bitwise-halves :
      (a b : ℕ)
      → bitwise z f (suc a) b ≡ f (suc a % 2) (b % 2) + 2 * bitwise z f (suc a / 2) (b / 2)
  bitwise-halves a b =
      omega (arith, digits-enough a (suc a / 2) (suc a / 2) (b / 2) (omega arith) (omega arith))

pub bit_or-halves : (a b : ℕ) → bit_or a b ≡ bit_or (a / 2) (b / 2) * 2 + max (a % 2) (b % 2)
bit_or-halves zero b = simp bit_or-bitwise (omega arith)
bit_or-halves (suc a) b = simp bit_or-bitwise (omega (arith, bitwise-halves (λ y. y) max a b))

pub bit_and-halves : (a b : ℕ) → bit_and a b ≡ bit_and (a / 2) (b / 2) * 2 + min (a % 2) (b % 2)
bit_and-halves zero b = simp bit_and-bitwise (omega arith)
bit_and-halves (suc a) b = simp bit_and-bitwise (omega (arith, bitwise-halves (λ y. 0) min a b))

pub bit_at-zero : (i : ℕ) → bit_at 0 i ≡ 0
bit_at-zero zero = refl
bit_at-zero (suc i) = bit_at-zero i

pub bit_at-bit_or : (i a b : ℕ) → bit_at (bit_or a b) i ≡ max (bit_at a i) (bit_at b i)
bit_at-bit_or zero a b = omega (arith, bit_or-halves a b)
bit_at-bit_or (suc i) a b =
    ap (λ t. bit_at t i) (omega (arith, bit_or-halves a b)) ∙ bit_at-bit_or i (a / 2) (b / 2)

double-pow : (k : ℕ) → 2 ^ suc k ≡ 2 * 2 ^ k
double-pow k = omega (arith, pow-suc 2 k)

times-double : (k a : ℕ) → a * 2 ^ suc k ≡ 2 * (a * 2 ^ k)
times-double k a = omega (arith, ap (λ (t : ℕ). a * t) (double-pow k))

pub bit_at-pow : (k i : ℕ) → bit_at (2 ^ k) i ≡ (if k == i then 1 else 0)
bit_at-pow zero zero = refl
bit_at-pow zero (suc i) = ground (arith, bit_at-zero i)
bit_at-pow (suc k) zero = ground (arith, double-pow k)
bit_at-pow (suc k) (suc i) =
    let half : 2 ^ suc k / 2 ≡ 2 ^ k = omega (arith, double-pow k) in
    rw half (ground (arith, bit_at-pow k i))

bit_and_zero_below : (n a : ℕ) → a ≤ n → bit_and a 0 ≡ 0
bit_and_zero_below zero zero h = refl
bit_and_zero_below zero (suc a) h = absurd (omega arith)
bit_and_zero_below (suc n) a h =
    omega (arith, bit_and-halves a 0, bit_and_zero_below n (a / 2) (omega arith))

bit_and-zero : (a : ℕ) → bit_and a 0 ≡ 0
bit_and-zero a = bit_and_zero_below a a (omega arith)

pub bit_and-pow : (k a : ℕ) → bit_and a (2 ^ k) ≡ bit_at a k * 2 ^ k
bit_and-pow zero a = omega (arith, bit_and-halves a 1, bit_and-zero (a / 2))
bit_and-pow (suc k) a =
    let half : 2 ^ suc k / 2 ≡ 2 ^ k = omega (arith, double-pow k) in
    let even : 2 ^ suc k % 2 ≡ 0 = omega (arith, double-pow k) in
    let low = (rw half at (bit_and-halves a (2 ^ suc k))) in
    omega (arith, low, even, bit_and-pow k (a / 2), times-double k (bit_at (a / 2) k))

pub low_halves : (k a : ℕ) → (a % 2 ^ suc k / 2 ≡ a / 2 % 2 ^ k) × (a % 2 ^ suc k % 2 ≡ a % 2)
low_halves k a =
    let m = 2 ^ k in
    let quotients : a / 2 / m ≡ a / (2 * m) = div-div-eq-div-mul a 2 m in
    let whole : 2 * m * (a / 2 / m) + a % (2 * m) ≡ a = rw quotients (div-add-mod a (2 * m)) in
    rw (double-pow k) (omega (arith, whole, div-add-mod (a / 2) m))

pub bit_at-shift_right : (k i a : ℕ) → bit_at (a / 2 ^ k) i ≡ bit_at a (k + i)
bit_at-shift_right zero i a = rw (div-one a, zero-add i)
bit_at-shift_right (suc k) i a =
    ap (λ t. bit_at t i) (ap (λ t. a / t) (double-pow k) ∙ sym (div-div-eq-div-mul a 2 (2 ^ k)))
    ∙ bit_at-shift_right k i (a / 2)
    ∙ shift_index
  where
    shift_index : bit_at (a / 2) (k + i) ≡ bit_at a (suc k + i)
    shift_index = rw (suc-add k i)

pub bit_at-shift_left :
    (k i a : ℕ) → bit_at (a * 2 ^ k) i ≡ (if ltb i k then 0 else bit_at a (i - k))
bit_at-shift_left zero i a = ground (arith, ap (λ t. bit_at t i) (mul-one a))
bit_at-shift_left (suc k) zero a = ground (arith, times-double k a)
bit_at-shift_left (suc k) (suc i) a =
    let half : a * 2 ^ suc k / 2 ≡ a * 2 ^ k = omega (arith, times-double k a) in
    rw half (ground (arith, bit_at-shift_left k i a))

pub bit_at-low_bits : (k i a : ℕ) → bit_at (a % 2 ^ k) i ≡ (if ltb i k then bit_at a i else 0)
bit_at-low_bits zero i a = ground (arith, ap (λ t. bit_at t i) (mod-one a), bit_at-zero i)
bit_at-low_bits (suc k) zero a = ground (arith, low_halves k a)
bit_at-low_bits (suc k) (suc i) a =
    ap (λ t. bit_at t i) (low_halves k a).0 ∙ ground (arith, bit_at-low_bits k i (a / 2))

pub bit_or-lt : (k a b : ℕ) → a < 2 ^ k → b < 2 ^ k → bit_or a b < 2 ^ k
bit_or-lt zero zero zero p q = omega arith
bit_or-lt zero (suc a) b p q = absurd (omega arith)
bit_or-lt zero zero (suc b) p q = absurd (omega arith)
bit_or-lt (suc k) a b p q =
    ground (arith, double-pow k, bit_or-halves a b, bit_or-lt k (a / 2) (b / 2))

pub bit_at-lt : (a i : ℕ) → bit_at a i < 2
bit_at-lt a zero = omega arith
bit_at-lt a (suc i) = bit_at-lt (a / 2) i

-- A number below 2 ^ k has no bit from k on.
pub bit_at_above : (k i a : ℕ) → a < 2 ^ k → k ≤ i → bit_at a i ≡ 0
bit_at_above zero i zero h le = bit_at-zero i
bit_at_above zero i (suc a) h le = absurd (omega arith)
bit_at_above (suc k) zero a h le = absurd (omega arith)
bit_at_above (suc k) (suc i) a h le =
    bit_at_above k i (a / 2) (omega (arith, double-pow k)) (omega arith)

pub pow-lt : (k n : ℕ) → k < n → 2 ^ k < 2 ^ n
pow-lt k zero h = absurd (omega arith)
pow-lt zero (suc n) h = omega (arith, double-pow n, one-le-pow n 2)
pow-lt (suc k) (suc n) h = omega (arith, double-pow k, double-pow n, pow-lt k n (omega arith))

bit_or_zero : (n a : ℕ) → a ≤ n → bit_or a 0 ≡ a
bit_or_zero zero zero h = refl
bit_or_zero zero (suc a) h = absurd (omega arith)
bit_or_zero (suc n) a h = omega (arith, bit_or-halves a 0, bit_or_zero n (a / 2) (omega arith))

-- Bits below those that are set: `|` is a sum.
pub bit_or_below : (k a b : ℕ) → b < 2 ^ k → bit_or (a * 2 ^ k) b ≡ a * 2 ^ k + b
bit_or_below zero a zero h =
    let whole : a * 2 ^ 0 ≡ a = omega arith in
    omega (arith, ap (λ t. bit_or t 0) whole, bit_or_zero a a (omega arith))
bit_or_below zero a (suc b) h = absurd (omega arith)
bit_or_below (suc k) a b h =
    let halves = bit_or-halves (a * 2 ^ suc k) b in
    let rest = bit_or_below k a (b / 2) (omega (arith, double-pow k)) in
    let half : (a * 2 ^ suc k) / 2 ≡ a * 2 ^ k = omega (arith, times-double k a) in
    omega (arith, times-double k a, ap (λ t. bit_or t (b / 2)) half, halves, rest)
