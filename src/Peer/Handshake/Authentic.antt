-- ===== src/Peer/Handshake/Authentic.antt =====
-- Packets built, packets believed, and the exchange of the two (client/internal/peer/handshake.go).
use vpn_cloude.Base.{
  ℕ, ◌+◌, ◌*◌, ◌^◌, ◌<◌, ◌≡◌, refl, ap, subst, ◌∙◌, ◌⊎◌, inl, inr, true, false, not, Option, none,
  some, leb, if◌then◌else◌, take, Bytes, bytes_equal, bytes_equal_iff, All, Bool-cases,
  Option-cases, arith,
}
use vpn_cloude.Stdlib.Text.{is_empty}
use vpn_cloude.Stdlib.Hex.{hex_bytes, hex_bytes-hex_text}
use vpn_cloude.Relay.Addr.{UdpAddr, ip_equal}
use vpn_cloude.Peer.Handshake.{
  Signing, Instant, HandshakeMessage, Handshaken, greeted, refused_by, stale_timestamp,
  handshake_magic, compute_hmac, marshalled, signed_message, build_handshake_packet, is_stale_at,
  ordered_seconds, verify_signature, verify_message, verify_handshake_packet, Reading, timed_out,
  unreadable, datagram, Greeting, response_verified, read_response, exchange_packet, exchange_with,
  exchange_handshake,
}

-- The packet is built of a peer and a secret that are there.
build_handshake_packet-greeted :
    (s : Signing) (now : Instant) (peer_id secret packet : Bytes)
    → build_handshake_packet s now peer_id secret ≡ greeted packet
    → (is_empty peer_id ≡ false)
      × (is_empty secret ≡ false)
      × (s.marshal (signed_message s now peer_id secret) ≡ some packet)
unfolding build_handshake_packet marshalled
build_handshake_packet-greeted s now peer_id secret packet h =
    elim (Option-cases (s.marshal (signed_message s now peer_id secret))) [
      | inl refused ↦ absurd (ground (arith, refused, h))
      | inr (payload, wrote) ↦ (ground (arith, h), ground (arith, h), ground (arith, wrote, h))
    ]

is_stale_at-seconds :
    (now : Instant) (timestamp : ℕ)
    → timestamp < 2 ^ 62
    → now.seconds < 2 ^ 62
    → leb (now.seconds * 10 ^ 9 + now.nanos) ((timestamp + 30) * 10 ^ 9)
      ≡ not (is_stale_at now timestamp)
unfolding is_stale_at
is_stale_at-seconds now timestamp early late =
    let first : ordered_seconds timestamp ≡ timestamp + (62135596800 + 2 ^ 63) =
      omega (arith, early) in
    let second : ordered_seconds now.seconds ≡ now.seconds + (62135596800 + 2 ^ 63) =
      omega (arith, late) in
    rw first (rw second (ground arith))

verify_message-signed :
    (s : Signing) (built now : Instant) (peer_id secret : Bytes)
    → All (λ b. b < 256) (compute_hmac s peer_id built.seconds secret)
    → is_empty peer_id ≡ false
    → verify_message s now secret (some (signed_message s built peer_id secret))
      ≡ (if is_stale_at now built.seconds then refused_by stale_timestamp else greeted peer_id)
unfolding verify_message signed_message verify_signature bytes_equal
verify_message-signed s built now peer_id secret small there =
    let same =
      bytes_equal_iff (compute_hmac s peer_id built.seconds secret)
        (compute_hmac s peer_id built.seconds secret) in
    rw (hex_bytes-hex_text (compute_hmac s peer_id built.seconds secret) small)
      (rw there (rw (same.1 refl) refl))

-- A packet that was built, and that JSON reads back, is believed with the secret of its sender until 30 seconds
-- after the second of its timestamp, and gives the id of the sender; later it is refused as stale.
pub verify_handshake_packet-build_handshake_packet :
    (s : Signing) (built now : Instant) (peer_id secret packet : Bytes)
    → All (λ b. b < 256) (compute_hmac s peer_id built.seconds secret)
    → (s.marshal (signed_message s built peer_id secret) ≡ some packet
        → s.unmarshal packet ≡ some (signed_message s built peer_id secret))
    → built.seconds < 2 ^ 62
    → now.seconds < 2 ^ 62
    → build_handshake_packet s built peer_id secret ≡ greeted packet
    → verify_handshake_packet s now packet secret ≡ (
        if leb (now.seconds * 10 ^ 9 + now.nanos) ((built.seconds + 30) * 10 ^ 9)
        then greeted peer_id
        else refused_by stale_timestamp)
unfolding verify_handshake_packet
verify_handshake_packet-build_handshake_packet s built now peer_id secret packet small reads early
      late h =
    let (there, keyed, wrote) = build_handshake_packet-greeted s built peer_id secret packet h in
    let believed = verify_message-signed s built now peer_id secret small there in
    let age = is_stale_at-seconds now built.seconds early late in
    rw keyed (rw (reads wrote) (believed ∙ ground (arith, age)))

-- What stands behind a packet that is believed.
pub record IsAuthentic (s : Signing) (now : Instant) (secret packet peer_id : Bytes) : Type 0 where
  pub msg : HandshakeMessage
  pub reads : s.unmarshal packet ≡ some msg
  pub marked : msg.magic ≡ handshake_magic
  pub named : msg.peer_id ≡ peer_id
  pub there : is_empty peer_id ≡ false
  pub keyed : is_empty secret ≡ false
  pub fresh : is_stale_at now msg.timestamp ≡ false
  pub signed : hex_bytes msg.hmac ≡ some (compute_hmac s peer_id msg.timestamp secret)

verify_message-IsAuthentic :
    (s : Signing) (now : Instant) (secret packet peer_id : Bytes) (msg : HandshakeMessage)
    → is_empty secret ≡ false
    → s.unmarshal packet ≡ some msg
    → verify_message s now secret (some msg) ≡ greeted peer_id
    → IsAuthentic s now secret packet peer_id
unfolding verify_message verify_signature
verify_message-IsAuthentic s now secret packet peer_id msg keyed reads h =
    elim (Option-cases (hex_bytes msg.hmac)) [
      | inl unread ↦ absurd (ground (arith, unread, h))
      | inr (signature, decoded) ↦
          let expected = compute_hmac s msg.peer_id msg.timestamp secret in
          let same : bytes_equal signature expected ≡ true = ground (arith, decoded, h) in
          let named : msg.peer_id ≡ peer_id = ground (arith, decoded, h) in
          record {
            msg = msg;
            reads = reads;
            marked = (bytes_equal_iff msg.magic handshake_magic).0 (ground (arith, h));
            named = named;
            there = subst (λ id. is_empty id ≡ false) named (ground (arith, h));
            keyed = keyed;
            fresh = ground (arith, h);
            signed =
                subst (λ id. hex_bytes msg.hmac ≡ some (compute_hmac s id msg.timestamp secret))
                  named (decoded ∙ ap some ((bytes_equal_iff signature expected).0 same));
          }
    ]

-- A packet is believed only if JSON reads it as a message with the magic text, the id that is returned, a
-- timestamp that is not stale, and the HMAC of these under the secret.
pub verify_handshake_packet-IsAuthentic :
    (s : Signing) (now : Instant) (secret packet peer_id : Bytes)
    → verify_handshake_packet s now packet secret ≡ greeted peer_id
    → IsAuthentic s now secret packet peer_id
unfolding verify_handshake_packet verify_message
verify_handshake_packet-IsAuthentic s now secret packet peer_id h =
    elim (Bool-cases (is_empty secret)) [
      | inl missing ↦ absurd (ground (arith, missing, h))
      | inr keyed ↦ elim (Option-cases (s.unmarshal packet)) [
        | inl unread ↦ absurd (ground (arith, keyed, unread, h))
        | inr (msg, reads) ↦
            verify_message-IsAuthentic s now secret packet peer_id msg keyed reads
              (ground (arith, keyed, reads, h))
      ]
    ]

-- A datagram of the peer that is believed.
pub record IsReply (s : Signing) (world : Greeting) (peer_addr : UdpAddr) (secret : Bytes)
    : Type 0 where
  pub bytes : Bytes
  pub from : UdpAddr
  pub came : world.read ≡ datagram bytes from
  pub host : ip_equal from.ip peer_addr.ip ≡ true
  pub port : from.port ≡ peer_addr.port
  pub sender : Bytes
  pub believed : IsAuthentic s world.read_at secret (take 2048 bytes) sender

response_verified-greeted :
    (verdict : Handshaken Bytes)
    → response_verified verdict ≡ greeted tt
    → (sender : Bytes) × (verdict ≡ greeted sender)
unfolding response_verified
response_verified-greeted (greeted sender) h = (sender, refl)
response_verified-greeted (refused_by e) h = absurd (cc h)

read_response-greeted :
    (s : Signing) (world : Greeting) (peer_addr : UdpAddr) (secret : Bytes) (reading : Reading)
    → world.read ≡ reading
    → read_response s world.read_at peer_addr secret reading ≡ greeted tt
    → (world.read ≡ timed_out) ⊎ IsReply s world peer_addr secret
unfolding read_response
read_response-greeted s world peer_addr secret timed_out came h = inl came
read_response-greeted s world peer_addr secret unreadable came h = absurd (cc h)
read_response-greeted s world peer_addr secret (datagram bytes from) came h =
    let host : ip_equal from.ip peer_addr.ip ≡ true = ground (arith, h) in
    let (sender, believed) =
      response_verified-greeted (verify_handshake_packet s world.read_at (take 2048 bytes) secret)
        (ground (arith, h)) in
    inr (record {
      bytes = bytes;
      from = from;
      came = came;
      host = host;
      port = ground (arith, h);
      sender = sender;
      believed =
          verify_handshake_packet-IsAuthentic s world.read_at secret (take 2048 bytes) sender
            believed;
    })

exchange_packet-IsAnswered :
    (s : Signing) (world : Greeting) (addr : UdpAddr) (secret : Bytes) (built : Handshaken Bytes)
    (sent : Option Bytes)
    → exchange_packet s world addr secret built ≡ (sent, greeted tt)
    → (packet : Bytes) × (sent ≡ some packet)
      × (world.sent ≡ true)
      × (built ≡ greeted packet)
      × ((world.read ≡ timed_out) ⊎ IsReply s world addr secret)
unfolding exchange_packet
exchange_packet-IsAnswered s world addr secret (refused_by e) sent h = absurd (ground (arith, h))
exchange_packet-IsAnswered s world addr secret (greeted packet) sent h = (
  packet,
  ground (arith, h),
  ground (arith, h),
  refl,
  read_response-greeted s world addr secret world.read refl (ground (arith, h)),
)

-- In an exchange that succeeds the socket took a packet that was built of the id and the secret, and then no response came
-- in time, or one came from the address and port of the peer and is believed with the secret.
pub exchange_handshake-IsAnswered :
    (s : Signing) (world : Greeting) (peer_addr : Option UdpAddr) (peer_id secret : Bytes)
    (sent : Option Bytes)
    → exchange_handshake s world peer_addr peer_id secret ≡ (sent, greeted tt)
    → (addr : UdpAddr) × (packet : Bytes) × (peer_addr ≡ some addr)
      × (sent ≡ some packet)
      × (world.sent ≡ true)
      × (build_handshake_packet s world.built_at peer_id secret ≡ greeted packet)
      × ((world.read ≡ timed_out) ⊎ IsReply s world addr secret)
unfolding exchange_handshake exchange_with
exchange_handshake-IsAnswered s world none peer_id secret sent h = absurd (ground (arith, h))
exchange_handshake-IsAnswered s world (some addr) peer_id secret sent h =
    let (packet, same, taken, built, answered) =
      exchange_packet-IsAnswered s world addr secret
        (build_handshake_packet s world.built_at peer_id secret) sent (ground (arith, h)) in
    (addr, packet, refl, same, taken, built, answered)
