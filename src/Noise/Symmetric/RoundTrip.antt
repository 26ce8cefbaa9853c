-- ===== src/Noise/Symmetric/RoundTrip.antt =====
-- Encryption and decryption of pkg/noise/symmetric_state.go, from one state on both sides.
use vpn_cloude.Base.{◌≡◌, length, Bytes, arith}
use vpn_cloude.Noise.Errors.{ok}
use vpn_cloude.Noise.Crypto.{Crypto, CryptoLaws}
use vpn_cloude.Noise.Cipher.{encrypted_len, encrypt_with_ad}
use vpn_cloude.Noise.Cipher.RoundTrip.{decrypt-encrypt, length-encrypt}
use vpn_cloude.Noise.Symmetric.{SymmetricState, encrypt_and_hash, decrypt_and_hash}

module _ (c : Crypto) (laws : CryptoLaws c) where
  -- Decryption in the state that encrypted gives the plaintext back, and the two states, transcript
  -- hash included, stay the same.
  pub decrypt_and_hash-encrypt :
      (plaintext : Bytes) (ss : SymmetricState) {ciphertext : Bytes} {ss' : SymmetricState}
      → encrypt_and_hash c plaintext ss ≡ (ok ciphertext, ss')
      → decrypt_and_hash c ciphertext ss ≡ (ok plaintext, ss')
  unfolding encrypt_and_hash decrypt_and_hash
  decrypt_and_hash-encrypt plaintext ss {ciphertext} {ss'} e =
      let cs' = (encrypt_with_ad c ss.h plaintext ss.cs).1 in
      ground
        (arith, decrypt-encrypt c laws ss.h plaintext ss.cs {ciphertext = ciphertext} {cs' = cs'})

  pub length-encrypt_and_hash :
      (plaintext : Bytes) (ss : SymmetricState) {ciphertext : Bytes} {ss' : SymmetricState}
      → encrypt_and_hash c plaintext ss ≡ (ok ciphertext, ss')
      → length ciphertext ≡ encrypted_len (length plaintext) ss.cs.has_key
  unfolding encrypt_and_hash
  length-encrypt_and_hash plaintext ss {ciphertext} {ss'} e =
      let cs' = (encrypt_with_ad c ss.h plaintext ss.cs).1 in
      ground
        (arith, length-encrypt c laws ss.h plaintext ss.cs {ciphertext = ciphertext} {cs' = cs'})
