-- ===== src/Noise/Handshake/Agreement.antt =====
-- The two sides of the IK handshake of pkg/noise/handshake_state.go, step by step.
use vpn_cloude.Base.{
  ◌≡◌, refl, ◌∙◌, ap, true, Option, none, some, length, Bytes, if◌then◌else◌, ◌⊎◌, inl, inr, arith,
}
use vpn_cloude.Noise.Errors.{ok, err, no_random}
use vpn_cloude.Noise.Crypto.{Crypto, CryptoLaws}
use vpn_cloude.Noise.Cipher.{CipherState}
use vpn_cloude.Noise.Symmetric.{split}
use vpn_cloude.Noise.Handshake.{
  HandshakeState, initiator, responder, clamp_scalar, public_from_private, dh, ready_ephemeral,
  write_message_a, read_message_a, write_message_b, read_message_b, transport, generate_ephemeral,
}
use vpn_cloude.Noise.Handshake.{set_ephemeral, new_handshake_state}
use vpn_cloude.Noise.Handshake.Steps.{length-public, dh_comm}
use vpn_cloude.Noise.Handshake.MessageA.{write_message_a-WroteA, read_message_a-WroteA}
use vpn_cloude.Noise.Handshake.MessageB.{write_message_b-WroteB, read_message_b-WroteB}

-- The state with the ephemeral key that a write uses: the one set before, or one made from `random`.
abbrev pub with_ephemeral : Option Bytes → HandshakeState → HandshakeState
with_ephemeral none hs = hs
with_ephemeral (some r) hs = if hs.has_e then hs else set_ephemeral (clamp_scalar r) hs

with_ephemeral_keeps :
    (random : Option Bytes) (hs : HandshakeState)
    → let hs' = with_ephemeral random hs in
      (hs'.role ≡ hs.role)
      × (hs'.ss ≡ hs.ss)
      × (hs'.psk ≡ hs.psk)
      × (hs'.s ≡ hs.s)
      × (hs'.rs ≡ hs.rs)
      × (hs'.re ≡ hs.re)
      × (hs'.has_re ≡ hs.has_re)
unfolding set_ephemeral
with_ephemeral_keeps none hs = ground arith
with_ephemeral_keeps (some r) hs = ground arith

-- The two sides before the first message: each knows the static public key of the other.
pub record Paired (c : Crypto) (i r : HandshakeState) : Type 0 where
  pub i_role : i.role ≡ initiator
  pub r_role : r.role ≡ responder
  pub same_ss : i.ss ≡ r.ss
  pub same_psk : i.psk ≡ r.psk
  pub knows_i : public_from_private c i.s ≡ ok r.rs
  pub knows_r : public_from_private c r.s ≡ ok i.rs
  pub re_length : (length i.re ≡ 32) × (length r.re ≡ 32)

-- The two sides between the messages.
pub record Halfway (c : Crypto) (i r : HandshakeState) : Type 0 where
  pub paired : Paired c i r
  pub i_has_e : i.has_e ≡ true
  pub r_has_re : r.has_re ≡ true
  pub knows_e : public_from_private c i.e ≡ ok r.re

module _ (c : Crypto) where
  -- Two new states that are given each other's static public key and the same psk are paired.
  pub new_handshake_state-Paired :
      (s_i s_r psk : Bytes) {p_i p_r : Bytes} {i r : HandshakeState}
      → public_from_private c s_i ≡ ok p_i
      → public_from_private c s_r ≡ ok p_r
      → new_handshake_state c initiator s_i p_r psk ≡ ok i
      → new_handshake_state c responder s_r p_i psk ≡ ok r
      → Paired c i r
  unfolding new_handshake_state
  new_handshake_state-Paired s_i s_r psk k_i k_r n_i n_r = record {
    i_role = ground arith;
    r_role = ground arith;
    same_ss = ground arith;
    same_psk = ground arith;
    knows_i = ground arith;
    knows_r = ground arith;
    re_length = ground arith;
  }

  ready_cases :
      (random : Option Bytes) (hs : HandshakeState)
      → (((with_ephemeral random hs).has_e ≡ true)
          × (ready_ephemeral c random hs ≡ ready_ephemeral c random (with_ephemeral random hs)))
        ⊎ (ready_ephemeral c random hs ≡ (err no_random, hs))
  unfolding ready_ephemeral generate_ephemeral set_ephemeral
  ready_cases none hs = ground arith
  ready_cases (some r) hs = ground arith

  write_a_ready :
      (hs : HandshakeState) (payload : Bytes) (random : Option Bytes) {message : Bytes}
      {hs' : HandshakeState}
      → write_message_a c payload random hs ≡ (ok message, hs')
      → ((with_ephemeral random hs).has_e ≡ true)
        × (write_message_a c payload random (with_ephemeral random hs) ≡ (ok message, hs'))
  unfolding write_message_a
  write_a_ready hs payload random e =
      let role = (with_ephemeral_keeps random hs).0 in
      elim (ready_cases random hs) [
        | inl (has, same) ↦ (has, ground arith)
        | inr none_read ↦ absurd (ground arith)
      ]

  write_b_ready :
      (hs : HandshakeState) (payload : Bytes) (random : Option Bytes) {message : Bytes}
      {hs' : HandshakeState}
      → write_message_b c payload random hs ≡ (ok message, hs')
      → ((with_ephemeral random hs).has_e ≡ true)
        × (write_message_b c payload random (with_ephemeral random hs) ≡ (ok message, hs'))
  unfolding write_message_b
  write_b_ready hs payload random e =
      let kept = with_ephemeral_keeps random hs in
      elim (ready_cases random hs) [
        | inl (has, same) ↦ (has, ground arith)
        | inr none_read ↦ absurd (ground arith)
      ]

module _ (c : Crypto) (laws : CryptoLaws c) where
  -- What the initiator writes as the first message, the responder reads: it gets the payload, and
  -- the two sides are then halfway, with the same symmetric state and the initiator's ephemeral key.
  pub read_message_a-write :
      (i r : HandshakeState) (payload : Bytes) (random : Option Bytes) {message : Bytes}
      {i' : HandshakeState}
      → Paired c i r
      → write_message_a c payload random i ≡ (ok message, i')
      → (r' : HandshakeState) × (read_message_a c message r ≡ (ok payload, r')) × (Halfway c i' r')
  read_message_a-write i r payload random {message} {i'} p written =
      let i0 = with_ephemeral random i in
      let kept = with_ephemeral_keeps random i in
      let (has, from_i0) = write_a_ready c i payload random written in
      let w = write_message_a-WroteA c i0 payload random has from_i0 in
      let s_known : r.rs ≡ w.s_pub = ground (arith, p.knows_i, w.static) in
      let dh1 : dh c r.s w.e_pub ≡ ok w.es =
        dh_comm c laws r.s i0.e p.knows_r w.ephemeral ∙ ground (arith, w.dh_es) in
      let dh2 : dh c r.s w.s_pub ≡ ok w.ss_shared =
        dh_comm c laws r.s i0.s p.knows_r w.static ∙ ground (arith, w.dh_ss) in
      (
        record r { ss = i'.ss; re = w.e_pub; has_re = true },
        read_message_a-WroteA c laws i0 i' r payload message w p.r_role (ground arith)
            (ground arith) s_known p.re_length.1 dh1 dh2,
        record {
          paired = record {
            i_role = ground (arith, w.final, p.i_role);
            r_role = p.r_role;
            same_ss = refl;
            same_psk = ground (arith, w.final, p.same_psk);
            knows_i = ground (arith, w.final, p.knows_i);
            knows_r = ground (arith, w.final, p.knows_r);
            re_length = (ground (arith, w.final, p.re_length), length-public c i0.e w.ephemeral);
          };
          i_has_e = ground (arith, w.final);
          r_has_re = refl;
          knows_e = ground (arith, w.final, w.ephemeral);
        },
      )

  -- What the responder writes as the second message, the initiator reads: it gets the payload, and
  -- the two sides end with the same symmetric state.
  pub read_message_b-write :
      (i r : HandshakeState) (payload : Bytes) (random : Option Bytes) {message : Bytes}
      {r' : HandshakeState}
      → Halfway c i r
      → write_message_b c payload random r ≡ (ok message, r')
      → (i' : HandshakeState) × (read_message_b c message i ≡ (ok payload, i'))
        × (i'.ss ≡ r'.ss)
        × (i'.role ≡ initiator)
        × (r'.role ≡ responder)
  read_message_b-write i r payload random {message} {r'} half written =
      let r0 = with_ephemeral random r in
      let kept = with_ephemeral_keeps random r in
      let p = half.paired in
      let (has, from_r0) = write_b_ready c r payload random written in
      let w = write_message_b-WroteB c r0 payload random has from_r0 in
      let dh1 : dh c i.e w.e_pub ≡ ok w.ee =
        dh_comm c laws i.e r0.e half.knows_e w.ephemeral ∙ ground (arith, w.dh_ee) in
      let dh2 : dh c i.s w.e_pub ≡ ok w.se =
        dh_comm c laws i.s r0.e p.knows_i w.ephemeral ∙ ground (arith, w.dh_se) in
      (
        record i { ss = r'.ss; re = w.e_pub; has_re = true },
        read_message_b-WroteB c laws r0 r' i payload message w p.i_role half.i_has_e (ground arith)
            (ground arith) p.re_length.0 dh1 dh2,
        refl,
        p.i_role,
        ground (arith, w.final, p.r_role),
      )

-- With the same symmetric state the transport ciphers match crosswise: what one side sends with, the
-- other receives with.
pub transport_crosswise :
    (c : Crypto) (i r : HandshakeState) {sending receiving : CipherState}
    → i.role ≡ initiator
    → r.role ≡ responder
    → i.ss ≡ r.ss
    → transport c i ≡ ok (sending, receiving)
    → transport c r ≡ ok (receiving, sending)
unfolding transport
transport_crosswise c i r i_role r_role same t = ground (arith, ap (split c) same)
