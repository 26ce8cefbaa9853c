-- ===== src/Peer/Handshake/Tests.antt =====
-- The theorems on the handshake packet at concrete packets, with a toy of JSON and of the HMAC.
use vpn_cloude.Base.{
  ℕ, ◌%◌, ◌≡◌, refl, true, Option, none, some, [], ◌∷◌, ◌++◌, length, take, drop, Bytes, codes, ◌⊎◌,
  arith, bytes_equal,
}
use vpn_cloude.Stdlib.Number.{itoa, itoa_on}
use vpn_cloude.Stdlib.Hex.{hex_text, hex_bytes, hex_byte}
use vpn_cloude.Relay.Addr.{UdpAddr, ip_equal}
use vpn_cloude.Peer.Handshake.{
  Signing, Instant, HandshakeMessage, greeted, signed_message, build_handshake_packet,
  verify_handshake_packet, timed_out, datagram, Greeting, exchange_handshake, exchange_with,
  exchange_packet, read_response, response_verified, marshalled, verify_message, verify_signature,
  is_stale_at, compute_hmac, signed_text, int64_text,
}
use vpn_cloude.Peer.Handshake.Authentic.{
  verify_handshake_packet-build_handshake_packet, IsReply, exchange_handshake-IsAnswered,
}

-- The time and the lengths of the magic text and of the id come first.
abbrev toy_marshal : HandshakeMessage → Option Bytes
toy_marshal msg =
    some (
      msg.timestamp
      ∷ length msg.magic
      ∷ length msg.peer_id
      ∷ (msg.magic ++ msg.peer_id ++ msg.hmac))

abbrev toy_unmarshal : Bytes → Option HandshakeMessage
toy_unmarshal (time ∷ n ∷ k ∷ text) = some (record {
  magic = take n text;
  peer_id = take k (drop n text);
  timestamp = time;
  hmac = drop k (drop n text);
})
toy_unmarshal other = none

abbrev toy_signing : Signing
toy_signing = record {
  marshal = toy_marshal;
  unmarshal = toy_unmarshal;
  sign = λ key text. (length key % 256) ∷ (length text % 256) ∷ [];
}

abbrev at_second : ℕ → Instant
at_second n = record { seconds = n; nanos = 0 }

abbrev alice : Bytes
alice = codes "alice"

abbrev secret : Bytes
secret = codes "s3cret"

-- The packet of alice at second 100.
abbrev greeting : Bytes
greeting = 100 ∷ 5 ∷ 5 ∷ codes "QTHS1alice060f"

greeting_built : build_handshake_packet toy_signing (at_second 100) alice secret ≡ greeted greeting
unfolding build_handshake_packet marshalled signed_message compute_hmac signed_text int64_text itoa
    itoa_on hex_text
greeting_built = refl

verify_handshake_packet-build_handshake_packet_example :
    verify_handshake_packet toy_signing (at_second 130) greeting secret ≡ greeted alice
unfolding compute_hmac signed_message hex_text signed_text int64_text itoa itoa_on
verify_handshake_packet-build_handshake_packet_example =
    verify_handshake_packet-build_handshake_packet toy_signing (at_second 100) (at_second 130) alice
      secret greeting (omega arith, (omega arith, tt)) (λ wrote. refl) (omega arith) (omega arith)
      greeting_built

abbrev home : UdpAddr
home = record { ip = 203 ∷ 0 ∷ 113 ∷ 7 ∷ []; port = 51820; zone = [] }

-- The peer sends the packet back as it came.
abbrev echoed : Greeting
echoed = record {
  connected = true;
  built_at = at_second 100;
  sent = true;
  deadline_set = true;
  read = datagram greeting home;
  read_at = at_second 101;
}

-- An own packet that is sent back is taken for a response of the peer.
echo_accepted :
    exchange_handshake toy_signing echoed (some home) alice secret ≡ (some greeting, greeted tt)
unfolding exchange_handshake exchange_with exchange_packet read_response response_verified
    build_handshake_packet marshalled signed_message verify_handshake_packet verify_message
    verify_signature is_stale_at compute_hmac signed_text int64_text itoa itoa_on hex_text hex_bytes
    hex_byte bytes_equal ip_equal
echo_accepted = refl

exchange_handshake-IsAnswered_example :
    (addr : UdpAddr) × (packet : Bytes) × (some home ≡ some addr)
    × (some greeting ≡ some packet)
    × (true ≡ true)
    × (build_handshake_packet toy_signing (at_second 100) alice secret ≡ greeted packet)
    × ((datagram greeting home ≡ timed_out) ⊎ IsReply toy_signing echoed addr secret)
exchange_handshake-IsAnswered_example =
    exchange_handshake-IsAnswered toy_signing echoed (some home) alice secret (some greeting)
      echo_accepted
