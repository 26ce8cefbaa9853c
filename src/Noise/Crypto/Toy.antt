-- ===== src/Noise/Crypto/Toy.antt =====
-- A stand-in for the cryptography that meets its laws, on which the theorems are run.
use vpn_cloude.Base.{
  ◌+◌, ◌-◌, ◌≡◌, refl, Option, none, some, ◌++◌, ltb, if◌then◌else◌, length, get_or, take,
  replicate, length-append, length-replicate, take_prefix, Bytes, arith,
}
use vpn_cloude.Noise.Crypto.{Crypto, CryptoLaws}

abbrev tag : Bytes
tag = replicate 16 7

abbrev toy_unseal : Bytes → Bytes → Bytes → Bytes → Option Bytes
toy_unseal h nonce sealed ad =
    if ltb (length sealed) 16 then none else some (take (length sealed - 16) sealed)

-- "Keys" are added: the public key of a private one repeats its second byte.
abbrev pub toy : Crypto
toy = record {
  hash = λ d. replicate 32 (length d);
  hkdf_block = λ secret salt i. some (replicate 32 (i + get_or secret 0 0));
  x25519 = λ a b. some (replicate 32 (get_or a 1 0 + get_or b 1 0));
  basepoint = replicate 32 0;
  aead_new = λ key. some key;
  seal = λ h nonce text ad. text ++ tag;
  unseal = toy_unseal;
}

toy_unseal-seal : (h nonce text ad : Bytes) → toy_unseal h nonce (text ++ tag) ad ≡ some text
toy_unseal-seal h nonce text ad =
    let sum : length (text ++ tag) ≡ length text + 16 = length-append text tag in
    let cut : length (text ++ tag) - 16 ≡ length text = omega arith in
    ground (arith, sum, cut, take_prefix (length text) text tag refl)

toy_length : (a b : Bytes) {r : Bytes} → toy.x25519 a b ≡ some r → length r ≡ 32
toy_length a b {r} e = ground (arith, length-replicate 32 (get_or a 1 0 + get_or b 1 0))

toy_comm :
    (a b : Bytes) {p q : Bytes}
    → toy.x25519 a toy.basepoint ≡ some p
    → toy.x25519 b toy.basepoint ≡ some q
    → toy.x25519 a q ≡ toy.x25519 b p
toy_comm a b {p} {q} h k = ground arith

pub toy_laws : CryptoLaws toy
toy_laws = record {
  unseal-seal = toy_unseal-seal;
  length-seal = λ h nonce text ad. length-append text tag;
  length-x25519 = λ a b e. toy_length a b e;
  x25519_comm = λ a b h k. toy_comm a b h k;
}
