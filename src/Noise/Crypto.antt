-- ===== src/Noise/Crypto.antt =====
-- What pkg/noise takes from golang.org/x/crypto, as parameters: BLAKE2s, HKDF over it, X25519 and
-- ChaCha20-Poly1305, with the documented laws that the theorems rely on.
pub mod Toy
use vpn_cloude.Base.{
  ℕ, ◌+◌, ◌<◌, ◌≡◌, Option, none, some, List, ◌++◌, length, take, drop, replicate, Bytes,
}

-- Block `i` of the HKDF stream for a secret and a salt; `none` is a failed read. An AEAD is known by
-- a handle that `aead_new` makes from the key.
pub record Crypto : Type 0 where
  pub hash : Bytes → Bytes
  pub hkdf_block : Bytes → Bytes → ℕ → Option Bytes
  pub x25519 : Bytes → Bytes → Option Bytes
  pub basepoint : Bytes
  pub aead_new : Bytes → Option Bytes
  pub seal : Bytes → Bytes → Bytes → Bytes → Bytes
  pub unseal : Bytes → Bytes → Bytes → Bytes → Option Bytes

-- `unseal` with the same handle, nonce and data gives a sealed text back, a sealed text is 16 bytes
-- longer, an X25519 value has 32 bytes, and Diffie-Hellman commutes on two public keys.
pub record CryptoLaws (c : Crypto) : Type 0 where
  pub unseal-seal :
      (h nonce text ad : Bytes) → c.unseal h nonce (c.seal h nonce text ad) ad ≡ some text
  pub length-seal : (h nonce text ad : Bytes) → length (c.seal h nonce text ad) ≡ length text + 16
  pub length-x25519 : (a b : Bytes) {r : Bytes} → c.x25519 a b ≡ some r → length r ≡ 32
  pub x25519_comm :
      (a b : Bytes) {p q : Bytes}
      → c.x25519 a c.basepoint ≡ some p
      → c.x25519 b c.basepoint ≡ some q
      → c.x25519 a q ≡ c.x25519 b p
