-- ===== src/Noise/Handshake/Tests.antt =====
-- The handshake theorems at concrete keys and payloads, over the stand-in cryptography.
use vpn_cloude.Base.{◌≡◌, refl, Option, some, false, bytes_equal, [], ◌∷◌, replicate, Bytes}
use vpn_cloude.Noise.Errors.{Result, ok, err}
use vpn_cloude.Noise.Crypto.Toy.{toy, toy_laws}
use vpn_cloude.Noise.Cipher.{
  CipherState, new_cipher_state, format_nonce, initialize_key, encrypt_with_ad, decrypt_with_ad,
  encrypted_len,
}
use vpn_cloude.Noise.Symmetric.{
  new_symmetric_state, hkdf_blocks, hkdf_material, initialize_symmetric, mix_hash, mix_key,
  mix_key_and_hash, encrypt_and_hash, decrypt_and_hash, split,
}
use vpn_cloude.Noise.Handshake.{
  HandshakeState, initiator, responder, public_from_private, new_handshake_state, write_message_a,
  read_message_a, write_message_b, read_message_b, transport, clamp_scalar, has_psk, dh,
  set_ephemeral, generate_ephemeral, mix_ephemeral, mix_dh, mix_psk, ready_ephemeral,
  read_ephemeral,
}
use vpn_cloude.Noise.Handshake.Complete.{handshake_agreement}

abbrev private_i : Bytes
private_i = replicate 32 5

abbrev private_r : Bytes
private_r = replicate 32 9

abbrev public_i : Bytes
public_i = replicate 32 5

abbrev public_r : Bytes
public_r = replicate 32 9

abbrev random_i : Option Bytes
random_i = some (replicate 32 3)

abbrev random_r : Option Bytes
random_r = some (replicate 32 4)

abbrev psk : Bytes
psk = replicate 32 1

-- What a result that is known to be good holds.
abbrev good : Result HandshakeState → HandshakeState
good (ok hs) = hs
good (err e) = record {
  ss = new_symmetric_state;
  role = 9;
  s = [];
  e = [];
  rs = [];
  re = [];
  has_e = false;
  has_re = false;
  psk = [];
}

abbrev bytes : Result Bytes → Bytes
bytes (ok b) = b
bytes (err e) = []

abbrev state_i : HandshakeState
state_i = good (new_handshake_state toy initiator private_i public_r psk)

abbrev state_r : HandshakeState
state_r = good (new_handshake_state toy responder private_r public_i psk)

abbrev sent_a : Result Bytes × HandshakeState
sent_a = write_message_a toy (72 ∷ 105 ∷ []) random_i state_i

abbrev sent_b : Result Bytes × HandshakeState
sent_b = write_message_b toy (79 ∷ 75 ∷ []) random_r (read_message_a toy (bytes sent_a.0) state_r).1

abbrev split_of : Result (CipherState × CipherState) → CipherState × CipherState
split_of (ok p) = p
split_of (err e) = (new_cipher_state, new_cipher_state)

abbrev ciphers : CipherState × CipherState
ciphers = split_of (transport toy (read_message_b toy (bytes sent_b.0) sent_a.1).1)

handshake_agreement_example :
    ((read_message_a toy (bytes sent_a.0) state_r).0 ≡ ok (72 ∷ 105 ∷ []))
    × ((read_message_b toy (bytes sent_b.0) sent_a.1).0 ≡ ok (79 ∷ 75 ∷ []))
    × (transport toy sent_b.1 ≡ ok (ciphers.1, ciphers.0))
unfolding format_nonce initialize_key encrypt_with_ad decrypt_with_ad encrypted_len hkdf_blocks
    hkdf_material initialize_symmetric mix_hash mix_key mix_key_and_hash encrypt_and_hash
    decrypt_and_hash split public_from_private new_handshake_state write_message_a read_message_a
    write_message_b read_message_b transport clamp_scalar has_psk dh set_ephemeral
    generate_ephemeral mix_ephemeral mix_dh mix_psk ready_ephemeral read_ephemeral bytes_equal
handshake_agreement_example =
    handshake_agreement toy toy_laws private_i private_r psk (72 ∷ 105 ∷ []) (79 ∷ 75 ∷ []) random_i
      random_r {message_a = bytes sent_a.0} {message_b = bytes sent_b.0} {i = state_i}
      {i1 = sent_a.1} {r = state_r} {r2 = sent_b.1} {sending = ciphers.0} {receiving = ciphers.1}
      refl refl refl refl refl refl refl
