-- ===== src/Noise/Handshake/Complete.antt =====
-- A whole run of the handshake, from two new states to the transport ciphers.
use vpn_cloude.Base.{◌≡◌, ap, subst, Option, Bytes}
use vpn_cloude.Noise.Errors.{Result, ok}
use vpn_cloude.Noise.Crypto.{Crypto, CryptoLaws}
use vpn_cloude.Noise.Cipher.{CipherState}
use vpn_cloude.Noise.Handshake.{
  HandshakeState, initiator, responder, public_from_private, new_handshake_state, write_message_a,
  read_message_a, write_message_b, read_message_b, transport,
}
use vpn_cloude.Noise.Handshake.Agreement.{
  new_handshake_state-Paired, read_message_a-write, read_message_b-write, transport_crosswise,
}

module _ (c : Crypto) (laws : CryptoLaws c) where
  -- Two sides that are given each other's static public key and the same psk run the handshake: if
  -- both messages can be written and the initiator's transport ciphers derived, then each side reads
  -- the payload of the other, and the responder gets the same transport ciphers with the two
  -- directions exchanged.
  pub handshake_agreement :
      (s_i s_r psk payload_a payload_b : Bytes) (random_i random_r : Option Bytes)
      {p_i p_r message_a message_b : Bytes} {i i1 r r2 : HandshakeState}
      {sending receiving : CipherState}
      → public_from_private c s_i ≡ ok p_i
      → public_from_private c s_r ≡ ok p_r
      → new_handshake_state c initiator s_i p_r psk ≡ ok i
      → new_handshake_state c responder s_r p_i psk ≡ ok r
      → write_message_a c payload_a random_i i ≡ (ok message_a, i1)
      → write_message_b c payload_b random_r (read_message_a c message_a r).1 ≡ (ok message_b, r2)
      → transport c (read_message_b c message_b i1).1 ≡ ok (sending, receiving)
      → ((read_message_a c message_a r).0 ≡ ok payload_a)
        × ((read_message_b c message_b i1).0 ≡ ok payload_b)
        × (transport c r2 ≡ ok (receiving, sending))
  handshake_agreement s_i s_r psk payload_a payload_b random_i random_r {message_a} {message_b} {i}
        {i1} {r} {r2} {sending} {receiving} k_i k_r n_i n_r wrote_a wrote_b derived =
      let start = new_handshake_state-Paired c s_i s_r psk k_i k_r n_i n_r in
      let (r1, read_a, half) = read_message_a-write c laws _ r payload_a random_i start wrote_a in
      let wrote_b' : write_message_b c payload_b random_r r1 ≡ (ok message_b, r2) =
        subst (λ x. write_message_b c payload_b random_r x ≡ (ok message_b, r2))
          (ap (λ (p : Result Bytes × HandshakeState). p.1) read_a) wrote_b in
      let (i2, read_b, same, i_role, r_role) =
        read_message_b-write c laws i1 r1 payload_b random_r half wrote_b' in
      let derived' : transport c i2 ≡ ok (sending, receiving) =
        subst (λ x. transport c x ≡ ok (sending, receiving))
          (ap (λ (p : Result Bytes × HandshakeState). p.1) read_b) derived in
      (
        ap (λ (p : Result Bytes × HandshakeState). p.0) read_a,
        ap (λ (p : Result Bytes × HandshakeState). p.0) read_b,
        transport_crosswise c i2 r2 i_role r_role same derived',
      )
