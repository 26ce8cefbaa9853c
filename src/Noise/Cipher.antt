-- ===== src/Noise/Cipher.antt =====
-- pkg/noise/cipher_state.go: the AEAD key and nonce of one direction. The nonce is a `uint64`; the
-- code refuses its largest value, so adding one never wraps.
pub mod RoundTrip
pub mod Stream
mod Tests
use vpn_cloude.Base.{
  ℕ, ◌+◌, ◌-◌, ◌/◌, ◌%◌, ◌^◌, Bool, true, false, not, Option, none, some, List, [], ◌∷◌, ◌++◌, map,
  ltb, ◌==◌, if◌then◌else◌, length, take, replicate, Bytes, copy_into,
}
use vpn_cloude.Noise.Errors.{
  Result, ok, err, or_fail, bad_key_length, aead_failed, nonce_exhausted, open_failed, not_keyed,
  short_material, nil_dereference, Method, ◌>>=◌, ◌>>◌, return, fail, get, update, try, fail_if,
  when,
}
use vpn_cloude.Noise.Crypto.{Crypto}

abbrev pub key_len : ℕ
key_len = 32

abbrev pub zero_key : Bytes
zero_key = replicate key_len 0

abbrev pub max_uint64 : ℕ
max_uint64 = 2 ^ 64 - 1

-- `aead` is nil before a key is set.
pub record CipherState : Type 0 where
  pub key : Bytes
  pub nonce : ℕ
  pub has_key : Bool
  pub aead : Option Bytes

abbrev pub new_cipher_state : CipherState
new_cipher_state = record { key = zero_key; nonce = 0; has_key = false; aead = none }

-- The low `n` bytes of a number, little-endian.
pub little_endian : ℕ → ℕ → Bytes
little_endian ℕ.zero v = []
little_endian (ℕ.suc n) v = (v % 256) ∷ little_endian n (v / 256)

unfoldable pub format_nonce : ℕ → Bytes
unfolding little_endian
format_nonce counter = 0 ∷ 0 ∷ 0 ∷ 0 ∷ little_endian 8 counter

-- `SetNonce`, of a number that is a `uint64`.
pub set_nonce : ℕ → Method CipherState (Unit {0})
set_nonce nonce = update (λ cs. record cs { nonce = nonce })

-- `encryptedLen` of symmetric_state.go: the AEAD adds a tag of 16 bytes.
unfoldable pub encrypted_len : ℕ → Bool → ℕ
encrypted_len plain_len keyed = if keyed then plain_len + 16 else plain_len

module _ (c : Crypto) where
  unfoldable pub initialize_key : Bytes → Method CipherState (Unit {0})
  initialize_key key =
      if length key == 0
      then update (λ _. new_cipher_state)
      else if not (length key == key_len)
      then fail bad_key_length
      else (do
        update (λ cs. record cs { key = copy_into cs.key key })
        cs ← get
        aead ← try (or_fail (c.aead_new cs.key) aead_failed)
        update (λ cs. record cs { nonce = 0; has_key = true; aead = some aead }))

  unfoldable pub encrypt_with_ad : Bytes → Bytes → Method CipherState Bytes
  encrypt_with_ad ad plaintext cs =
      if not cs.has_key
      then (ok plaintext, cs)
      else if cs.nonce == max_uint64
      then (err nonce_exhausted, cs)
      else (do
        aead ← try (or_fail cs.aead nil_dereference)
        update (λ cs. record cs { nonce = cs.nonce + 1 })
        return (c.seal aead (format_nonce cs.nonce) plaintext ad))
          cs

  unfoldable pub decrypt_with_ad : Bytes → Bytes → Method CipherState Bytes
  decrypt_with_ad ad ciphertext cs =
      if not cs.has_key
      then (ok ciphertext, cs)
      else if cs.nonce == max_uint64
      then (err nonce_exhausted, cs)
      else (do
        aead ← try (or_fail cs.aead nil_dereference)
        plaintext ← try (or_fail (c.unseal aead (format_nonce cs.nonce) ciphertext ad) open_failed)
        update (λ cs. record cs { nonce = cs.nonce + 1 })
        return plaintext)
          cs

  pub rekey : Method CipherState (Unit {0})
  rekey cs =
      if not cs.has_key
      then (err not_keyed, cs)
      else (do
        aead ← try (or_fail cs.aead nil_dereference)
        let material = c.seal aead (format_nonce max_uint64) zero_key []
        fail_if (ltb (length material) key_len) short_material
        initialize_key (take key_len material))
          cs
