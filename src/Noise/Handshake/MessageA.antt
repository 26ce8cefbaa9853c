-- ===== src/Noise/Handshake/MessageA.antt =====
-- The first message of the handshake, as it is written and as it is read.
use vpn_cloude.Base.{
  ◌≡◌, true, Option, ◌++◌, length, Bytes, copy_into_whole, bytes_equal_iff, take_prefix,
  drop_prefix, length-append, arith,
}
use vpn_cloude.Noise.Errors.{ok}
use vpn_cloude.Noise.Crypto.{Crypto, CryptoLaws}
use vpn_cloude.Noise.Symmetric.{SymmetricState, mix_key, encrypt_and_hash}
use vpn_cloude.Noise.Symmetric.RoundTrip.{decrypt_and_hash-encrypt, length-encrypt_and_hash}
use vpn_cloude.Noise.Handshake.{
  HandshakeState, responder, public_from_private, dh, mix_ephemeral, mix_dh, ready_ephemeral,
  read_ephemeral, write_message_a, read_message_a,
}
use vpn_cloude.Noise.Handshake.Steps.{value, mix_ephemeral_same, length-public}

-- What a successful `writeMessageA` did, from an ephemeral key that is there.
pub record WroteA (c : Crypto) (hs hs' : HandshakeState) (payload message : Bytes) : Type 0 where
  pub e_pub : Bytes
  pub es : Bytes
  pub s_pub : Bytes
  pub ss_shared : Bytes
  pub s1 : SymmetricState
  pub s2 : SymmetricState
  pub s3 : SymmetricState
  pub s4 : SymmetricState
  pub s5 : SymmetricState
  pub encrypted_static : Bytes
  pub encrypted_payload : Bytes
  pub ephemeral : public_from_private c hs.e ≡ ok e_pub
  pub mixed : mix_ephemeral c e_pub hs ≡ (ok tt, record hs { ss = s1 })
  pub dh_es : dh c hs.e hs.rs ≡ ok es
  pub key_es : mix_key c es s1 ≡ (ok tt, s2)
  pub static : public_from_private c hs.s ≡ ok s_pub
  pub sealed_static : encrypt_and_hash c s_pub s2 ≡ (ok encrypted_static, s3)
  pub dh_ss : dh c hs.s hs.rs ≡ ok ss_shared
  pub key_ss : mix_key c ss_shared s3 ≡ (ok tt, s4)
  pub sealed_payload : encrypt_and_hash c payload s4 ≡ (ok encrypted_payload, s5)
  pub wire : message ≡ e_pub ++ (encrypted_static ++ encrypted_payload)
  pub final : hs' ≡ record hs { ss = s5 }

module _ (c : Crypto) where
  pub write_message_a-WroteA :
      (hs : HandshakeState) (payload : Bytes) (random : Option Bytes) {message : Bytes}
      {hs' : HandshakeState}
      → hs.has_e ≡ true
      → write_message_a c payload random hs ≡ (ok message, hs')
      → WroteA c hs hs' payload message
  unfolding write_message_a mix_dh ready_ephemeral mix_ephemeral
  write_message_a-WroteA hs payload random {message} {hs'} has e =
      let e_pub = value (public_from_private c hs.e) in
      let s1 = (mix_ephemeral c e_pub hs).1.ss in
      let es = value (dh c hs.e hs.rs) in
      let s2 = (mix_key c es s1).1 in
      let s_pub = value (public_from_private c hs.s) in
      let s3 = (encrypt_and_hash c s_pub s2).1 in
      let ss_shared = value (dh c hs.s hs.rs) in
      let s4 = (mix_key c ss_shared s3).1 in
      record {
        e_pub = e_pub;
        es = es;
        s_pub = s_pub;
        ss_shared = ss_shared;
        s1 = s1;
        s2 = s2;
        s3 = s3;
        s4 = s4;
        s5 = (encrypt_and_hash c payload s4).1;
        encrypted_static = value (encrypt_and_hash c s_pub s2).0;
        encrypted_payload = value (encrypt_and_hash c payload s4).0;
        ephemeral = ground arith;
        mixed = ground arith;
        dh_es = ground arith;
        key_es = ground arith;
        static = ground arith;
        sealed_static = ground arith;
        dh_ss = ground arith;
        key_ss = ground arith;
        sealed_payload = ground arith;
        wire = ground arith;
        final = ground arith;
      }

module _ (c : Crypto) (laws : CryptoLaws c) (hs hs' other : HandshakeState)
    (payload message : Bytes) (w : WroteA c hs hs' payload message) where
  pub read_message_a-WroteA :
      other.role ≡ responder
      → other.ss ≡ hs.ss
      → other.psk ≡ hs.psk
      → other.rs ≡ w.s_pub
      → length other.re ≡ 32
      → dh c other.s w.e_pub ≡ ok w.es
      → dh c other.s w.s_pub ≡ ok w.ss_shared
      → read_message_a c message other
        ≡ (ok payload, record other { ss = hs'.ss; re = w.e_pub; has_re = true })
  unfolding read_message_a read_ephemeral mix_dh
  read_message_a-WroteA role same_ss same_psk known re_len dh1 dh2 =
      let body = w.encrypted_static ++ w.encrypted_payload in
      let static_len = length w.encrypted_static in
      ground (
        arith,
        w.wire,
        w.final,
        length-public c hs.e w.ephemeral,
        length-public c hs.s w.static,
        length-append w.e_pub body,
        length-append w.encrypted_static w.encrypted_payload,
        take_prefix 32 w.e_pub body,
        drop_prefix 32 w.e_pub body,
        copy_into_whole other.re w.e_pub,
        mix_ephemeral_same c w.e_pub hs (record other { re = w.e_pub; has_re = true }) w.s1,
        w.mixed,
        w.key_es,
        length-encrypt_and_hash c laws w.s_pub w.s2 w.sealed_static,
        take_prefix static_len w.encrypted_static w.encrypted_payload,
        drop_prefix static_len w.encrypted_static w.encrypted_payload,
        decrypt_and_hash-encrypt c laws w.s_pub w.s2 w.sealed_static,
        bytes_equal_iff w.s_pub w.s_pub,
        w.key_ss,
        decrypt_and_hash-encrypt c laws payload w.s4 w.sealed_payload,
      )
