-- ===== src/Noise/Handshake.antt =====
-- pkg/noise/handshake_state.go: the IK handshake, with the optional pre-shared key. `random` is what
-- one read of the random source gives; `none` is a failed read.
pub mod Steps
pub mod MessageA
pub mod MessageB
pub mod Agreement
pub mod Complete
mod Tests
use vpn_cloude.Base.{
  ℕ, ◌+◌, Bool, true, false, not, ◌&&◌, Option, none, some, List, [], ◌++◌, ltb, ◌==◌,
  if◌then◌else◌, length, get_or, set, take, drop, replicate, Bytes, copy_into, codes, bytes_equal,
  bit_and, bit_or,
}
use vpn_cloude.Noise.Errors.{
  Result, ok, err, or_fail, invalid_role, bad_psk_length, x25519_failed, no_random,
  message_too_short, missing_static, bad_static_length, static_mismatch, message_a_not_read,
  message_a_not_written, Method, ◌>>=◌, ◌>>◌, return, fail, get, update, try, fail_if, when,
}
use vpn_cloude.Noise.Crypto.{Crypto}
use vpn_cloude.Noise.Cipher.{CipherState, key_len, zero_key, encrypted_len}
use vpn_cloude.Noise.Symmetric.{
  SymmetricState, new_symmetric_state, initialize_symmetric, mix_hash, mix_key, mix_key_and_hash,
  encrypt_and_hash, decrypt_and_hash, split,
}

abbrev pub protocol_name : Bytes
protocol_name = codes "Noise_IK_25519_ChaChaPoly_BLAKE2s"

-- `Role` is an int; any other value is no role.
abbrev pub initiator : ℕ
initiator = 0

abbrev pub responder : ℕ
responder = 1

pub record HandshakeState : Type 0 where
  pub ss : SymmetricState
  pub role : ℕ
  pub s : Bytes
  pub e : Bytes
  pub rs : Bytes
  pub re : Bytes
  pub has_e : Bool
  pub has_re : Bool
  pub psk : Bytes

-- A method of the symmetric state inside.
abbrev pub on_symmetric : {A : Type 0} → Method SymmetricState A → Method HandshakeState A
on_symmetric m hs = ((m hs.ss).0, record hs { ss = (m hs.ss).1 })

pub clamp_scalar : Bytes → Bytes
clamp_scalar s =
    let s1 = set s 0 (bit_and (get_or s 0 0) 248) in
    let s2 = set s1 31 (bit_and (get_or s1 31 0) 127) in set s2 31 (bit_or (get_or s2 31 0) 64)

pub has_psk : HandshakeState → Bool
has_psk hs = ltb 0 (length hs.psk)

pub set_ephemeral : Bytes → HandshakeState → HandshakeState
set_ephemeral priv hs = record hs { e = priv; has_e = true }

pub generate_ephemeral : Option Bytes → Method HandshakeState (Unit {0})
generate_ephemeral random = do
  priv ← try (or_fail random no_random)
  update (set_ephemeral (clamp_scalar priv))

module _ (c : Crypto) where
  pub public_from_private : Bytes → Result Bytes
  public_from_private priv = elim (c.x25519 (clamp_scalar priv) c.basepoint) [
    | none ↦ err x25519_failed
    | some raw ↦ ok (copy_into zero_key raw)
  ]

  pub dh : Bytes → Bytes → Result Bytes
  dh local_private remote_public = elim (c.x25519 (clamp_scalar local_private) remote_public) [
    | none ↦ err x25519_failed
    | some raw ↦ ok (copy_into zero_key raw)
  ]

  pub new_handshake_state : ℕ → Bytes → Bytes → Bytes → Result HandshakeState
  new_handshake_state role local_static remote_static psk =
      if not (role == initiator) && not (role == responder)
      then err invalid_role
      else if ltb 0 (length psk) && not (length psk == key_len)
      then err bad_psk_length
      else (let (started, ss) = initialize_symmetric c protocol_name new_symmetric_state in
          elim started [
            | err x ↦ err x
            | ok _ ↦ elim (public_from_private local_static) [
              | err x ↦ err x
              | ok local_pub ↦ ok (record {
                ss =
                    if role == initiator
                    then mix_hash c remote_static (mix_hash c local_pub ss)
                    else mix_hash c local_pub (mix_hash c remote_static ss);
                role = role;
                s = local_static;
                e = zero_key;
                rs = remote_static;
                re = zero_key;
                has_e = false;
                has_re = false;
                psk = psk;
              })
            ]
          ])

  -- The start of each message: the ephemeral key goes into the hash, and with a psk into the key.
  pub mix_ephemeral : Bytes → Method HandshakeState (Unit {0})
  mix_ephemeral e_pub = do
    update (λ hs. record hs { ss = mix_hash c e_pub hs.ss })
    hs ← get
    when (has_psk hs) (on_symmetric (mix_key c e_pub))

  pub mix_dh : Bytes → Bytes → Method HandshakeState (Unit {0})
  mix_dh priv pub_key = do shared ← try (dh priv pub_key); on_symmetric (mix_key c shared)

  pub mix_psk : Method HandshakeState (Unit {0})
  mix_psk hs =
      if length hs.psk == 0 then (ok tt, hs) else on_symmetric (mix_key_and_hash c hs.psk) hs

  -- Checks the ephemeral key or makes one, and gives its public half.
  pub ready_ephemeral : Option Bytes → Method HandshakeState Bytes
  ready_ephemeral random = do
    hs ← get
    when (not hs.has_e) (generate_ephemeral random)
    hs' ← get
    try (public_from_private hs'.e)

  pub write_message_a : Bytes → Option Bytes → Method HandshakeState Bytes
  write_message_a payload random = do
    hs ← get
    fail_if (not (hs.role == initiator)) invalid_role
    e_pub ← ready_ephemeral random
    mix_ephemeral e_pub
    hs1 ← get
    mix_dh hs1.e hs1.rs
    s_pub ← try (public_from_private hs1.s)
    encrypted_static ← on_symmetric (encrypt_and_hash c s_pub)
    mix_dh hs1.s hs1.rs
    encrypted_payload ← on_symmetric (encrypt_and_hash c payload)
    return (e_pub ++ (encrypted_static ++ encrypted_payload))

  -- The received ephemeral key.
  read_ephemeral : Bytes → Method HandshakeState (Unit {0})
  read_ephemeral message = do
    update (λ hs. record hs { re = copy_into hs.re (take key_len message); has_re = true })
    hs ← get
    mix_ephemeral hs.re

  pub read_message_a : Bytes → Method HandshakeState Bytes
  read_message_a message = do
    hs ← get
    fail_if (not (hs.role == responder)) invalid_role
    fail_if (ltb (length message) key_len) message_too_short
    read_ephemeral message
    hs1 ← get
    mix_dh hs1.s hs1.re
    hs2 ← get
    let static_len = encrypted_len key_len hs2.ss.cs.has_key
    let body = drop key_len message
    fail_if (ltb (length body) static_len) missing_static
    remote_static ← on_symmetric (decrypt_and_hash c (take static_len body))
    fail_if (not (length remote_static == key_len)) bad_static_length
    fail_if (not (bytes_equal remote_static hs1.rs)) static_mismatch
    mix_dh hs1.s hs1.rs
    on_symmetric (decrypt_and_hash c (drop static_len body))

  pub write_message_b : Bytes → Option Bytes → Method HandshakeState Bytes
  write_message_b payload random = do
    hs ← get
    fail_if (not (hs.role == responder)) invalid_role
    fail_if (not hs.has_re) message_a_not_read
    e_pub ← ready_ephemeral random
    mix_ephemeral e_pub
    hs1 ← get
    mix_dh hs1.e hs1.re
    mix_dh hs1.e hs1.rs
    mix_psk
    encrypted_payload ← on_symmetric (encrypt_and_hash c payload)
    return (e_pub ++ encrypted_payload)

  pub read_message_b : Bytes → Method HandshakeState Bytes
  read_message_b message = do
    hs ← get
    fail_if (not (hs.role == initiator)) invalid_role
    fail_if (not hs.has_e) message_a_not_written
    fail_if (ltb (length message) key_len) message_too_short
    read_ephemeral message
    hs1 ← get
    mix_dh hs1.e hs1.re
    mix_dh hs1.s hs1.re
    mix_psk
    on_symmetric (decrypt_and_hash c (drop key_len message))

  -- The send and the receive cipher.
  pub transport : HandshakeState → Result (CipherState × CipherState)
  transport hs = elim (split c hs.ss) [
    | err x ↦ err x
    | ok (c1, c2) ↦ if hs.role == initiator then ok (c1, c2) else ok (c2, c1)
  ]
