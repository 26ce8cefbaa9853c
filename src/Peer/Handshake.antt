-- ===== src/Peer/Handshake.antt =====
-- The signed packet by which two clients greet each other, client/internal/peer/handshake.go. JSON and
-- HMAC-SHA256 are parameters.
mod Authentic
mod Tests
use vpn_cloude.Base.{
  ℕ, ◌+◌, ◌-◌, ◌*◌, ◌%◌, ◌^◌, Bool, true, false, not, ◌&&◌, ◌||◌, Option, none, some, [], ◌∷◌, ◌++◌,
  ltb, ◌==◌, if◌then◌else◌, take, Bytes, bytes_equal, codes,
}
use vpn_cloude.Stdlib.Text.{is_empty}
use vpn_cloude.Stdlib.Number.{itoa}
use vpn_cloude.Stdlib.Hex.{hex_text, hex_bytes}
use vpn_cloude.Relay.Addr.{UdpAddr, ip_equal}

abbrev pub handshake_magic : Bytes
handshake_magic = codes "QTHS1"

-- The timestamp is an int64, as the 64-bit word of its two's complement.
pub record HandshakeMessage : Type 0 where
  pub magic : Bytes
  pub peer_id : Bytes
  pub timestamp : ℕ
  pub hmac : Bytes

-- `json.Marshal`, `json.Unmarshal` and the HMAC of a key and a text.
pub record Signing : Type 0 where
  pub marshal : HandshakeMessage → Option Bytes
  pub unmarshal : Bytes → Option HandshakeMessage
  pub sign : Bytes → Bytes → Bytes

-- The clock: the seconds since 1970 as a word, and the nanoseconds of the second.
pub record Instant : Type 0 where
  pub seconds : ℕ
  pub nanos : ℕ

pub data HandshakeError : Type 0 where
  id_required secret_required marshal_error unmarshal_error invalid_magic missing_peer_id :
      HandshakeError
  stale_timestamp decode_error invalid_hmac : HandshakeError
  connection_nil address_nil send_error deadline_error read_error unexpected_peer : HandshakeError

pub data Handshaken {ℓ} (A : Type ℓ) : Type ℓ where
  greeted : A → Handshaken A
  refused_by : HandshakeError → Handshaken A

-- `strconv.FormatInt` in base 10.
unfoldable pub int64_text : ℕ → Bytes
int64_text word = if ltb word (2 ^ 63) then itoa word else 45 ∷ itoa (2 ^ 64 - word)

-- What `computeHMAC` writes into the hash.
unfoldable pub signed_text : Bytes → ℕ → Bytes
signed_text peer_id timestamp =
    handshake_magic ++ codes "|" ++ peer_id ++ codes "|" ++ int64_text timestamp

unfoldable pub compute_hmac : Signing → Bytes → ℕ → Bytes → Bytes
compute_hmac s peer_id timestamp secret = s.sign secret (signed_text peer_id timestamp)

unfoldable pub marshalled : Option Bytes → Handshaken Bytes
marshalled none = refused_by marshal_error
marshalled (some payload) = greeted payload

unfoldable pub signed_message : Signing → Instant → Bytes → Bytes → HandshakeMessage
signed_message s now peer_id secret = record {
  magic = handshake_magic;
  peer_id = peer_id;
  timestamp = now.seconds;
  hmac = hex_text (compute_hmac s peer_id now.seconds secret);
}

unfoldable pub build_handshake_packet : Signing → Instant → Bytes → Bytes → Handshaken Bytes
build_handshake_packet s now peer_id secret =
    if is_empty peer_id
    then refused_by id_required
    else if is_empty secret
    then refused_by secret_required
    else marshalled (s.marshal (signed_message s now peer_id secret))

-- The seconds of a `time.Time`, counted from year 1 and wrapped, in the order of int64.
abbrev pub ordered_seconds : ℕ → ℕ
ordered_seconds word = (word + 62135596800 + 2 ^ 63) % 2 ^ 64

-- More than 30 seconds have passed; a timestamp that lies ahead is not stale.
unfoldable pub is_stale_at : Instant → ℕ → Bool
is_stale_at now timestamp =
    ltb ((ordered_seconds timestamp + 30) * 10 ^ 9)
      (ordered_seconds now.seconds * 10 ^ 9 + now.nanos)

unfoldable pub verify_signature :
    Signing → Bytes → HandshakeMessage → Option Bytes → Handshaken Bytes
verify_signature s secret msg none = refused_by decode_error
verify_signature s secret msg (some signature) =
    if bytes_equal signature (compute_hmac s msg.peer_id msg.timestamp secret)
    then greeted msg.peer_id
    else refused_by invalid_hmac

unfoldable pub verify_message :
    Signing → Instant → Bytes → Option HandshakeMessage → Handshaken Bytes
verify_message s now secret none = refused_by unmarshal_error
verify_message s now secret (some msg) =
    if not (bytes_equal msg.magic handshake_magic)
    then refused_by invalid_magic
    else if is_empty msg.peer_id
    then refused_by missing_peer_id
    else if is_stale_at now msg.timestamp
    then refused_by stale_timestamp
    else verify_signature s secret msg (hex_bytes msg.hmac)

unfoldable pub verify_handshake_packet : Signing → Instant → Bytes → Bytes → Handshaken Bytes
verify_handshake_packet s now packet secret =
    if is_empty secret
    then refused_by secret_required
    else verify_message s now secret (s.unmarshal packet)

-- What `ReadFromUDP` gives; a datagram as it came, with its sender.
pub data Reading : Type 0 where
  timed_out unreadable : Reading
  datagram : Bytes → UdpAddr → Reading

-- The socket and the clocks of one exchange.
pub record Greeting : Type 0 where
  pub connected : Bool
  pub built_at : Instant
  pub sent : Bool
  pub deadline_set : Bool
  pub read : Reading
  pub read_at : Instant

unfoldable pub response_verified : Handshaken Bytes → Handshaken (Unit {0})
response_verified (greeted peer_id) = greeted tt
response_verified (refused_by e) = refused_by e

-- The buffer holds 2048 bytes.
unfoldable pub read_response : Signing → Instant → UdpAddr → Bytes → Reading → Handshaken (Unit {0})
read_response s now peer_addr secret timed_out = greeted tt
read_response s now peer_addr secret unreadable = refused_by read_error
read_response s now peer_addr secret (datagram bytes from) =
    if not (ip_equal from.ip peer_addr.ip) || not (from.port == peer_addr.port)
    then refused_by unexpected_peer
    else response_verified (verify_handshake_packet s now (take 2048 bytes) secret)

-- The packet that the socket took, if it took one, and the result.
unfoldable pub exchange_packet :
    Signing → Greeting → UdpAddr → Bytes → Handshaken Bytes → Option Bytes × Handshaken (Unit {0})
exchange_packet s world peer_addr secret (refused_by e) = (none, refused_by e)
exchange_packet s world peer_addr secret (greeted packet) =
    if not world.sent
    then (none, refused_by send_error)
    else if not world.deadline_set
    then (some packet, refused_by deadline_error)
    else (some packet, read_response s world.read_at peer_addr secret world.read)

unfoldable pub exchange_with :
    Signing → Greeting → Option UdpAddr → Bytes → Bytes → Option Bytes × Handshaken (Unit {0})
exchange_with s world none peer_id secret = (none, refused_by address_nil)
exchange_with s world (some peer_addr) peer_id secret =
    exchange_packet s world peer_addr secret
      (build_handshake_packet s world.built_at peer_id secret)

unfoldable pub exchange_handshake :
    Signing → Greeting → Option UdpAddr → Bytes → Bytes → Option Bytes × Handshaken (Unit {0})
exchange_handshake s world peer_addr peer_id secret =
    if world.connected
    then exchange_with s world peer_addr peer_id secret
    else (none, refused_by connection_nil)
