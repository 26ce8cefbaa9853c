-- ===== src/Noise/Symmetric.antt =====
-- pkg/noise/symmetric_state.go: the chaining key and transcript hash of a handshake over a cipher.
pub mod RoundTrip
use vpn_cloude.Base.{
  ℕ, zero, suc, ◌+◌, Bool, Option, none, some, List, [], ◌∷◌, ◌++◌, ltb, ◌==◌, if◌then◌else◌,
  length, get_or, replicate, Bytes, copy_into,
}
use vpn_cloude.Noise.Errors.{
  Result, ok, err, or_fail, parts_not_positive, hkdf_failed, Method, ◌>>=◌, ◌>>◌, return, fail, get,
  update, try,
}
use vpn_cloude.Noise.Crypto.{Crypto}
use vpn_cloude.Noise.Cipher.{
  CipherState, new_cipher_state, key_len, initialize_key, encrypt_with_ad, decrypt_with_ad,
}

abbrev pub hash_len : ℕ
hash_len = 32

pub record SymmetricState : Type 0 where
  pub cs : CipherState
  pub ck : Bytes
  pub h : Bytes

abbrev pub new_symmetric_state : SymmetricState
new_symmetric_state = record {
  cs = new_cipher_state;
  ck = replicate hash_len 0;
  h = replicate hash_len 0;
}

-- A method of the cipher inside.
abbrev pub on_cipher : {A : Type 0} → Method CipherState A → Method SymmetricState A
on_cipher m ss = ((m ss.cs).0, record ss { cs = (m ss.cs).1 })

module _ (c : Crypto) where
  -- Blocks `i` to `i + n - 1` of the stream.
  unfoldable pub hkdf_blocks : Bytes → Bytes → ℕ → ℕ → Result (List Bytes)
  hkdf_blocks chaining_key input i zero = ok []
  hkdf_blocks chaining_key input i (suc n) =
      let rest = hkdf_blocks chaining_key input (i + 1) n in
      elim (c.hkdf_block input chaining_key i) [
        | none ↦ err hkdf_failed
        | some block ↦ elim rest [ ok blocks ↦ ok (block ∷ blocks) | err e ↦ err e ]
      ]

  unfoldable pub hkdf_material : Bytes → Bytes → ℕ → Result (List Bytes)
  hkdf_material chaining_key input parts =
      if parts == 0 then err parts_not_positive else hkdf_blocks chaining_key input 0 parts

  unfoldable pub initialize_symmetric : Bytes → Method SymmetricState (Unit {0})
  initialize_symmetric protocol_name = do
    update (λ ss. record ss {
      h =
          if ltb hash_len (length protocol_name)
          then c.hash protocol_name
          else copy_into (replicate hash_len 0) protocol_name;
    })
    update (λ ss. record ss { ck = ss.h })
    on_cipher (initialize_key c [])

  unfoldable pub mix_hash : Bytes → SymmetricState → SymmetricState
  mix_hash d ss = record ss { h = copy_into ss.h (c.hash (ss.h ++ d)) }

  unfoldable pub mix_key : Bytes → Method SymmetricState (Unit {0})
  mix_key input ss =
      (do
        material ← try (hkdf_material ss.ck input 2)
        update (λ ss. record ss { ck = copy_into ss.ck (get_or material 0 []) })
        on_cipher (initialize_key c (get_or material 1 [])))
        ss

  unfoldable pub mix_key_and_hash : Bytes → Method SymmetricState (Unit {0})
  mix_key_and_hash input ss =
      (do
        material ← try (hkdf_material ss.ck input 3)
        update (λ ss. record ss { ck = copy_into ss.ck (get_or material 0 []) })
        update (mix_hash (get_or material 1 []))
        on_cipher (initialize_key c (get_or material 2 [])))
        ss

  unfoldable pub encrypt_and_hash : Bytes → Method SymmetricState Bytes
  encrypt_and_hash plaintext ss =
      (do
        ciphertext ← on_cipher (encrypt_with_ad c ss.h plaintext)
        update (mix_hash ciphertext)
        return ciphertext)
        ss

  unfoldable pub decrypt_and_hash : Bytes → Method SymmetricState Bytes
  decrypt_and_hash ciphertext ss =
      (do
        plaintext ← on_cipher (decrypt_with_ad c ss.h ciphertext)
        update (mix_hash ciphertext)
        return plaintext)
        ss

  -- Fresh cipher states, each keyed by one block.
  unfoldable pub split : SymmetricState → Result (CipherState × CipherState)
  split ss = elim (hkdf_material ss.ck [] 2) [
    | err e ↦ err e
    | ok material ↦
        let (r1, c1) = initialize_key c (get_or material 0 []) new_cipher_state in
        let (r2, c2) = initialize_key c (get_or material 1 []) new_cipher_state in
        elim r1 [ err e ↦ err e | ok _ ↦ elim r2 [ err e ↦ err e | ok _ ↦ ok (c1, c2) ] ]
  ]
