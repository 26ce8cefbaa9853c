-- ===== src/Noise/Handshake/Steps.antt =====
-- Facts about single steps of the handshake that both messages need.
use vpn_cloude.Base.{
  ◌≡◌, List, length, Bytes, length-copy_into, copy_into_whole, Option-cases, inl, inr, arith,
}
use vpn_cloude.Noise.Errors.{Result, ok, err}
use vpn_cloude.Noise.Crypto.{Crypto, CryptoLaws}
use vpn_cloude.Noise.Cipher.{zero_key}
use vpn_cloude.Noise.Symmetric.{SymmetricState}
use vpn_cloude.Noise.Handshake.{
  HandshakeState, clamp_scalar, has_psk, public_from_private, dh, mix_ephemeral, mix_psk,
}

-- The bytes of a result that is known to be good.
abbrev pub value : Result Bytes → Bytes
value (ok b) = b
value (err e) = List.[]

module _ (c : Crypto) where
  -- What the start of a message does depends on the symmetric state and the psk alone.
  pub mix_ephemeral_same :
      (x : Bytes) (hs other : HandshakeState) (s1 : SymmetricState)
      → other.ss ≡ hs.ss
      → other.psk ≡ hs.psk
      → mix_ephemeral c x hs ≡ (ok tt, record hs { ss = s1 })
      → mix_ephemeral c x other ≡ (ok tt, record other { ss = s1 })
  unfolding mix_ephemeral has_psk
  mix_ephemeral_same x hs other s1 same_ss same_psk h = ground arith

  pub mix_psk_same :
      (hs other : HandshakeState) (s1 : SymmetricState)
      → other.ss ≡ hs.ss
      → other.psk ≡ hs.psk
      → mix_psk c hs ≡ (ok tt, record hs { ss = s1 })
      → mix_psk c other ≡ (ok tt, record other { ss = s1 })
  unfolding mix_psk
  mix_psk_same hs other s1 same_ss same_psk h = ground arith

  pub length-public : (priv : Bytes) {p : Bytes} → public_from_private c priv ≡ ok p → length p ≡ 32
  unfolding public_from_private
  length-public priv h = elim (Option-cases (c.x25519 (clamp_scalar priv) c.basepoint)) [
    | inl e ↦ ground (arith, e)
    | inr (raw, e) ↦ ground (arith, e, length-copy_into zero_key raw)
  ]

module _ (c : Crypto) (laws : CryptoLaws c) where
  -- Both sides of a Diffie-Hellman exchange compute the same value, or both fail.
  pub dh_comm :
      (a b : Bytes) {p q : Bytes}
      → public_from_private c a ≡ ok p
      → public_from_private c b ≡ ok q
      → dh c a q ≡ dh c b p
  unfolding dh public_from_private
  dh_comm a b {p} {q} h k = elim (Option-cases (c.x25519 (clamp_scalar a) c.basepoint)) [
    | inl e ↦ ground (arith, e)
    | inr (raw, e) ↦ elim (Option-cases (c.x25519 (clamp_scalar b) c.basepoint)) [
      | inl e' ↦ ground (arith, e')
      | inr (raw', e') ↦ ground (
        arith,
        e,
        e',
        laws.length-x25519 (clamp_scalar a) c.basepoint e,
        laws.length-x25519 (clamp_scalar b) c.basepoint e',
        copy_into_whole zero_key raw,
        copy_into_whole zero_key raw',
        laws.x25519_comm (clamp_scalar a) (clamp_scalar b) e e',
      )
    ]
  ]
