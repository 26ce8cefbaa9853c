-- ===== src/Agent/Frames.antt =====
-- Packets between devices (startPacketForwarding of client/internal/agent/agent.go).
use vpn_cloude.Base.{
  ℕ, ◌≤◌, ◌≡◌, refl, sym, ap, ap₂, zero, suc, ◌∙◌, Option, some, [], ◌∷◌, ◌++◌, length, take, drop,
  Bytes, bytes_equal, bytes_equal_iff, Option-cases, inl, inr, arith, length-append,
}
use vpn_cloude.Stdlib.Ip.{V6Text, ip_string}
use vpn_cloude.Agent.{packet_magic, destination, frame_packet, accept_datagram}

accept_datagram-packet_magic :
    (packet : Bytes) → 20 ≤ length packet → accept_datagram (packet_magic ++ packet) ≡ some packet
unfolding accept_datagram bytes_equal
accept_datagram-packet_magic packet long = ground (arith, long)

-- A datagram that one agent sends for a packet of its device goes to the endpoint of the packet's destination,
-- and the agent that receives it hands the same packet to its device.
pub accept_datagram-frame_packet :
    (v6 : V6Text) (endpoint_of : Bytes → Option Bytes) (packet endpoint datagram : Bytes)
    → frame_packet v6 endpoint_of packet ≡ some (endpoint, datagram)
    → (endpoint_of (ip_string v6 (destination packet)) ≡ some endpoint)
      × (accept_datagram datagram ≡ some packet)
unfolding frame_packet
accept_datagram-frame_packet v6 endpoint_of packet endpoint datagram h =
    elim (Option-cases (endpoint_of (ip_string v6 (destination packet)))) [
      | inl unknown ↦ absurd (ground (arith, unknown, h))
      | inr (known, there) ↦
          let long : 20 ≤ length packet = ground (arith, there, h) in
          let back = accept_datagram-packet_magic packet long in
          (there ∙ ground (arith, there, h), ground (arith, there, h, back))
    ]

take-drop : (n : ℕ) (s : Bytes) → take n s ++ drop n s ≡ s
take-drop zero s = refl
take-drop (suc n) [] = refl
take-drop (suc n) (c ∷ s) = ap (◌∷◌ c) (take-drop n s)

-- What an agent hands to its device from the network began with the four bytes of the magic number, and the
-- packet is the rest, at least 20 bytes.
pub accept_datagram_lem :
    (datagram packet : Bytes)
    → accept_datagram datagram ≡ some packet
    → (datagram ≡ packet_magic ++ packet) × (20 ≤ length packet)
unfolding accept_datagram
accept_datagram_lem datagram packet h =
    let long : 24 ≤ length datagram = ground (arith, h) in
    let marked : take 4 datagram ≡ packet_magic =
      (bytes_equal_iff (take 4 datagram) packet_magic).0 (ground (arith, h)) in
    let rest : drop 4 datagram ≡ packet = ground (arith, h) in
    let whole : datagram ≡ packet_magic ++ packet =
      sym (take-drop 4 datagram) ∙ ap₂ ◌++◌ marked rest in
    (whole, omega (arith, ap length whole, length-append packet_magic packet))
