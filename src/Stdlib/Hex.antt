-- ===== src/Stdlib/Hex.antt =====
-- Go's package encoding/hex.
use vpn_cloude.Base.{
  ℕ, ◌+◌, ◌-◌, ◌*◌, ◌/◌, ◌%◌, ◌<◌, ◌≡◌, refl, ◌&&◌, Option, none, some, [], ◌∷◌, ltb, leb,
  if◌then◌else◌, Bytes, All, arith,
}

abbrev pub hex_letter : ℕ → ℕ
hex_letter d = if ltb d 10 then 48 + d else 87 + d

-- `hex.EncodeToString`.
unfoldable pub hex_text : Bytes → Bytes
hex_text [] = []
hex_text (b ∷ bytes) = hex_letter (b / 16) ∷ hex_letter (b % 16) ∷ hex_text bytes

abbrev pub hex_value : ℕ → Option ℕ
hex_value c =
    if leb 48 c && leb c 57
    then some (c - 48)
    else if leb 97 c && leb c 102
    then some (c - 87)
    else if leb 65 c && leb c 70
    then some (c - 55)
    else none

-- One byte before those that were decoded.
unfoldable pub hex_byte : Option ℕ → Option ℕ → Option Bytes → Option Bytes
hex_byte (some high) (some low) (some bytes) = some ((high * 16 + low) ∷ bytes)
hex_byte (some high) (some low) none = none
hex_byte (some high) none bytes = none
hex_byte none low bytes = none

-- `hex.DecodeString`: an error if a character is no digit or their number is odd.
unfoldable pub hex_bytes : Bytes → Option Bytes
hex_bytes [] = some []
hex_bytes (c ∷ []) = none
hex_bytes (c ∷ d ∷ s) = hex_byte (hex_value c) (hex_value d) (hex_bytes s)

hex_value-hex_letter : (d : ℕ) → d < 16 → hex_value (hex_letter d) ≡ some d
hex_value-hex_letter d small = ground (arith, small)

pub hex_bytes-hex_text :
    (bytes : Bytes) → All (λ b. b < 256) bytes → hex_bytes (hex_text bytes) ≡ some bytes
unfolding hex_bytes hex_text hex_byte
hex_bytes-hex_text [] small = refl
hex_bytes-hex_text (b ∷ bytes) (first, rest) =
    let high = hex_value-hex_letter (b / 16) (omega (arith, first)) in
    let low = hex_value-hex_letter (b % 16) (omega arith) in
    rw high (rw low (rw (hex_bytes-hex_text bytes rest) (ground (arith, first))))
