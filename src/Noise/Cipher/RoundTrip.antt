-- ===== src/Noise/Cipher/RoundTrip.antt =====
-- Encryption and decryption of pkg/noise/cipher_state.go, from one state on both sides.
use vpn_cloude.Base.{◌≡◌, inl, inr, Option-cases, length, Bytes, arith}
use vpn_cloude.Noise.Errors.{ok}
use vpn_cloude.Noise.Crypto.{Crypto, CryptoLaws}
use vpn_cloude.Noise.Cipher.{
  CipherState, format_nonce, encrypted_len, encrypt_with_ad, decrypt_with_ad,
}

module _ (c : Crypto) (laws : CryptoLaws c) where
  -- Decryption in the state that encrypted gives the plaintext back and leaves the same state.
  pub decrypt-encrypt :
      (ad plaintext : Bytes) (cs : CipherState) {ciphertext : Bytes} {cs' : CipherState}
      → encrypt_with_ad c ad plaintext cs ≡ (ok ciphertext, cs')
      → decrypt_with_ad c ad ciphertext cs ≡ (ok plaintext, cs')
  unfolding encrypt_with_ad decrypt_with_ad
  decrypt-encrypt ad plaintext cs e = elim (Option-cases cs.aead) [
    | inl no_aead ↦ ground (arith, no_aead)
    | inr (a, is_aead) ↦
        ground (arith, is_aead, laws.unseal-seal a (format_nonce cs.nonce) plaintext ad)
  ]

  -- A ciphertext is as long as `encryptedLen` says.
  pub length-encrypt :
      (ad plaintext : Bytes) (cs : CipherState) {ciphertext : Bytes} {cs' : CipherState}
      → encrypt_with_ad c ad plaintext cs ≡ (ok ciphertext, cs')
      → length ciphertext ≡ encrypted_len (length plaintext) cs.has_key
  unfolding encrypt_with_ad encrypted_len
  length-encrypt ad plaintext cs e = elim (Option-cases cs.aead) [
    | inl no_aead ↦ ground (arith, no_aead)
    | inr (a, is_aead) ↦
        ground (arith, is_aead, laws.length-seal a (format_nonce cs.nonce) plaintext ad)
  ]
