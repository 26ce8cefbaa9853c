-- ===== src/Noise/Handshake/MessageB.antt =====
-- The second message of the handshake, as it is written and as it is read.
use vpn_cloude.Base.{
  ◌≡◌, true, Option, ◌++◌, length, Bytes, copy_into_whole, take_prefix, drop_prefix, length-append,
  arith,
}
use vpn_cloude.Noise.Errors.{ok}
use vpn_cloude.Noise.Crypto.{Crypto, CryptoLaws}
use vpn_cloude.Noise.Symmetric.{SymmetricState, mix_key, encrypt_and_hash}
use vpn_cloude.Noise.Symmetric.RoundTrip.{decrypt_and_hash-encrypt}
use vpn_cloude.Noise.Handshake.{
  HandshakeState, initiator, public_from_private, dh, mix_ephemeral, mix_dh, mix_psk,
  ready_ephemeral, read_ephemeral, write_message_b, read_message_b,
}
use vpn_cloude.Noise.Handshake.Steps.{value, mix_ephemeral_same, mix_psk_same, length-public}

-- What a successful `writeMessageB` did, from an ephemeral key that is there.
pub record WroteB (c : Crypto) (hs hs' : HandshakeState) (payload message : Bytes) : Type 0 where
  pub e_pub : Bytes
  pub ee : Bytes
  pub se : Bytes
  pub s1 : SymmetricState
  pub s2 : SymmetricState
  pub s3 : SymmetricState
  pub s4 : SymmetricState
  pub s5 : SymmetricState
  pub encrypted_payload : Bytes
  pub ephemeral : public_from_private c hs.e ≡ ok e_pub
  pub mixed : mix_ephemeral c e_pub hs ≡ (ok tt, record hs { ss = s1 })
  pub dh_ee : dh c hs.e hs.re ≡ ok ee
  pub key_ee : mix_key c ee s1 ≡ (ok tt, s2)
  pub dh_se : dh c hs.e hs.rs ≡ ok se
  pub key_se : mix_key c se s2 ≡ (ok tt, s3)
  pub pre_shared : mix_psk c (record hs { ss = s3 }) ≡ (ok tt, record hs { ss = s4 })
  pub sealed_payload : encrypt_and_hash c payload s4 ≡ (ok encrypted_payload, s5)
  pub wire : message ≡ e_pub ++ encrypted_payload
  pub final : hs' ≡ record hs { ss = s5 }

module _ (c : Crypto) where
  pub write_message_b-WroteB :
      (hs : HandshakeState) (payload : Bytes) (random : Option Bytes) {message : Bytes}
      {hs' : HandshakeState}
      → hs.has_e ≡ true
      → write_message_b c payload random hs ≡ (ok message, hs')
      → WroteB c hs hs' payload message
  unfolding write_message_b mix_dh ready_ephemeral mix_ephemeral mix_psk
  write_message_b-WroteB hs payload random {message} {hs'} has e =
      let e_pub = value (public_from_private c hs.e) in
      let s1 = (mix_ephemeral c e_pub hs).1.ss in
      let ee = value (dh c hs.e hs.re) in
      let s2 = (mix_key c ee s1).1 in
      let se = value (dh c hs.e hs.rs) in
      let s3 = (mix_key c se s2).1 in
      let s4 = (mix_psk c (record hs { ss = s3 })).1.ss in
      record {
        e_pub = e_pub;
        ee = ee;
        se = se;
        s1 = s1;
        s2 = s2;
        s3 = s3;
        s4 = s4;
        s5 = (encrypt_and_hash c payload s4).1;
        encrypted_payload = value (encrypt_and_hash c payload s4).0;
        ephemeral = ground arith;
        mixed = ground arith;
        dh_ee = ground arith;
        key_ee = ground arith;
        dh_se = ground arith;
        key_se = ground arith;
        pre_shared = ground arith;
        sealed_payload = ground arith;
        wire = ground arith;
        final = ground arith;
      }

module _ (c : Crypto) (laws : CryptoLaws c) (hs hs' other : HandshakeState)
    (payload message : Bytes) (w : WroteB c hs hs' payload message) where
  pub read_message_b-WroteB :
      other.role ≡ initiator
      → other.has_e ≡ true
      → other.ss ≡ hs.ss
      → other.psk ≡ hs.psk
      → length other.re ≡ 32
      → dh c other.e w.e_pub ≡ ok w.ee
      → dh c other.s w.e_pub ≡ ok w.se
      → read_message_b c message other
        ≡ (ok payload, record other { ss = hs'.ss; re = w.e_pub; has_re = true })
  unfolding read_message_b read_ephemeral mix_dh
  read_message_b-WroteB role has same_ss same_psk re_len dh1 dh2 =
      let received = record other { re = w.e_pub; has_re = true } in
      ground (
        arith,
        w.wire,
        w.final,
        length-public c hs.e w.ephemeral,
        length-append w.e_pub w.encrypted_payload,
        take_prefix 32 w.e_pub w.encrypted_payload,
        drop_prefix 32 w.e_pub w.encrypted_payload,
        copy_into_whole other.re w.e_pub,
        mix_ephemeral_same c w.e_pub hs received w.s1,
        w.mixed,
        w.key_ee,
        w.key_se,
        mix_psk_same c (record hs { ss = w.s3 }) (record received { ss = w.s3 }) w.s4,
        w.pre_shared,
        decrypt_and_hash-encrypt c laws payload w.s4 w.sealed_payload,
      )
