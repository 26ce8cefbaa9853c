-- ===== src/Stdlib/Number.antt =====
-- Decimal numbers of Go's package strconv.
use vpn_cloude.Base.{
  ℕ, zero, suc, ◌+◌, ◌-◌, ◌*◌, ◌/◌, ◌%◌, ◌^◌, ◌<◌, ◌≤◌, ◌≡◌, Bool, true, false, ◌&&◌, Option, none,
  some, [], ◌∷◌, ◌++◌, ltb, leb, ◌==◌, if◌then◌else◌, Bytes, arith, Bool-cases, inl, inr,
}

abbrev pub is_digit : ℕ → Bool
is_digit c = leb 48 c && leb c 57

-- The value of digits after those that `acc` stands for.
unfoldable pub digits_value : ℕ → Bytes → Option ℕ
digits_value acc [] = some acc
digits_value acc (c ∷ s) =
    let rest = digits_value (acc * 10 + (c - 48)) s in if is_digit c then rest else none

-- Digits after the sign; an error if there are none or they do not fit an `int` of 64 bits.
abbrev magnitude : Bool → Bytes → Option (Bool × ℕ)
magnitude negative [] = none
magnitude negative (d ∷ ds) = elim (digits_value 0 (d ∷ ds)) [
  | none ↦ none
  | some n ↦ if leb n (if negative then 2 ^ 63 else 2 ^ 63 - 1) then some (negative, n) else none
]

-- A sign and a magnitude.
unfoldable pub atoi : Bytes → Option (Bool × ℕ)
atoi [] = none
atoi (c ∷ s) =
    if c == 45
    then magnitude true s
    else if c == 43
    then magnitude false s
    else magnitude false (c ∷ s)

-- On fuel, one more than the number is enough: a step divides it by ten.
unfoldable pub itoa_on : ℕ → ℕ → Bytes
itoa_on zero n = []
itoa_on (suc fuel) n =
    let rest = itoa_on fuel (n / 10) in
    if ltb n 10 then (48 + n) ∷ [] else rest ++ ((48 + n % 10) ∷ [])

unfoldable pub itoa : ℕ → Bytes
itoa n = itoa_on (suc n) n

-- The test that the program makes of every port it reads.
unfoldable pub port_number : Bytes → Option ℕ
port_number s = elim (atoi s) [
  | none ↦ none
  | some (negative, n) ↦ if negative then none else if ltb 0 n && leb n 65535 then some n else none
]

digits_value-snoc :
    (acc d n : ℕ) (s : Bytes)
    → d < 10
    → digits_value acc s ≡ some n
    → digits_value acc (s ++ ((48 + d) ∷ [])) ≡ some (n * 10 + d)
unfolding digits_value
digits_value-snoc acc d n [] small h = ground (arith, h)
digits_value-snoc acc d n (c ∷ s) small h =
    ground (arith, h, digits_value-snoc (acc * 10 + (c - 48)) d n s small)

digits_value-itoa_on : (fuel n : ℕ) → n < fuel → digits_value 0 (itoa_on fuel n) ≡ some n
unfolding digits_value itoa_on
digits_value-itoa_on zero n h = absurd (omega arith)
digits_value-itoa_on (suc fuel) n h =
    let rest = (λ (large : 10 ≤ n).
      digits_value-snoc 0 (n % 10) (n / 10) (itoa_on fuel (n / 10)) (omega arith)
        (digits_value-itoa_on fuel (n / 10) (omega arith))) in
    ground (arith, rest)

-- The text of a number starts with a digit.
itoa_on_head :
    (fuel n : ℕ) → n < fuel → (c : ℕ) × (s : Bytes) × (itoa_on fuel n ≡ c ∷ s) × (is_digit c ≡ true)
unfolding itoa_on
itoa_on_head zero n h = absurd (omega arith)
itoa_on_head (suc fuel) n h = elim (Bool-cases (ltb n 10)) [
  | inl small ↦ (48 + n, [], ground arith, ground arith)
  | inr large ↦
      let (c, s, starts, digit) = itoa_on_head fuel (n / 10) (ground arith) in
      (c, s ++ ((48 + n % 10) ∷ []), ground (arith, starts), digit)
]

-- `strconv.Atoi` reads what `strconv.Itoa` writes.
pub atoi-itoa : (n : ℕ) → n < 2 ^ 63 → atoi (itoa n) ≡ some (false, n)
unfolding atoi itoa
atoi-itoa n h =
    let (c, s, starts, digit) = itoa_on_head (suc n) n (omega arith) in
    let value = digits_value-itoa_on (suc n) n (omega arith) in ground (arith, starts, digit, value)

pub port_number-itoa : (n : ℕ) → 0 < n → n ≤ 65535 → port_number (itoa n) ≡ some n
unfolding port_number
port_number-itoa n low high = ground (arith, atoi-itoa n (omega arith))

pub port_number-range : (s : Bytes) (n : ℕ) → port_number s ≡ some n → (0 < n) × (n ≤ 65535)
unfolding port_number
port_number-range s n h = ground (arith, h)
