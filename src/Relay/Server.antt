-- ===== src/Relay/Server.antt =====
-- The packets of relay/internal/relay_server.go. The read loop handles one packet after the other, so each
-- is one step on the state.
pub mod Lemmas
pub mod Consistent
pub mod Keeps
pub mod Sweep
pub mod Pairing
pub mod Forward
pub mod Targets
pub mod Reach
mod Tests
use vpn_cloude.Base.{
  ℕ, zero, suc, ◌+◌, ◌-◌, ◌*◌, ◌/◌, ◌%◌, ◌^◌, Bool, true, false, not, ◌&&◌, Option, none, some,
  List, [], ◌∷◌, ◌++◌, ltb, leb, ◌==◌, if◌then◌else◌, length, get_or, take, drop, replicate, Bytes,
  copy_into, codes,
}
use vpn_cloude.Base.Assoc.{lookup, insert, delete}
use vpn_cloude.Relay.Addr.{UdpAddr, same_addr}
use vpn_cloude.Relay.Metrics.{Metrics, set_active_sessions, record_packet}
use vpn_cloude.Relay.Sessions.{
  session_idle_timeout, Session, RelayServer, Env, new_relay_server, on_metrics,
  update_active_session_gauge, session_id, join_existing, fresh_session, add_session,
  session_of_token, create_session, get_session_by_id, touch_session, remove_session, sweep,
  remove_stale_sessions,
}

abbrev pub packet_type_connect : ℕ
packet_type_connect = 1

abbrev pub packet_type_data : ℕ
packet_type_data = 2

abbrev pub packet_type_disconnect : ℕ
packet_type_disconnect = 3

abbrev pub packet_type_ping : ℕ
packet_type_ping = 4

abbrev pub packet_header_size : ℕ
packet_header_size = 17

pub data RelayError : Type 0 where
  invalid_packet_length bad_connect_payload empty_session_token unknown_session : RelayError
  unknown_packet_type not_part_of_session not_initialized write_failed : RelayError

-- The state after a call, the datagrams that it sent, and its error.
pub record Outcome : Type 0 where
  pub server : RelayServer
  pub sent : List (Bytes × UdpAddr)
  pub error : Option RelayError

abbrev pub fail_with : RelayError → RelayServer → Outcome
fail_with e srv = record { server = srv; sent = []; error = some e }

-- A second call after a first one whose error is dropped.
abbrev pub and_then : Outcome → (RelayServer → Outcome) → Outcome
and_then o f =
    let next = f o.server in
    record { server = next.server; sent = o.sent ++ next.sent; error = next.error }

pub destination_addr : Session → UdpAddr → Option UdpAddr
destination_addr s from =
    if same_addr s.peer_a (some from)
    then s.peer_b
    else if same_addr s.peer_b (some from)
    then s.peer_a
    else none

-- `WriteToUDP` and the count of a packet that was written.
pub write_packet : Env → Bytes → UdpAddr → RelayServer → Outcome
write_packet env packet to srv =
    if not srv.conn
    then fail_with not_initialized srv
    else if not (env.write_ok packet to)
    then fail_with write_failed srv
    else record {
      server = on_metrics (record_packet (length packet)) srv;
      sent = (packet, to) ∷ [];
      error = none;
    }

pub send_packet : Env → ℕ → Bytes → Bytes → UdpAddr → RelayServer → Outcome
send_packet env packet_type id payload to srv =
    write_packet env (packet_type ∷ (id ++ payload)) to srv

pub forward_packet : Env → Session → Bytes → UdpAddr → RelayServer → Outcome
forward_packet env s packet from srv =
    let touched = touch_session env.now s srv in
    elim (destination_addr s from) [
      | none ↦ fail_with not_part_of_session touched
      | some to ↦ write_packet env packet to touched
    ]

abbrev pub idle_outcome : RelayServer → Outcome
idle_outcome srv = record { server = srv; sent = []; error = none }

pub send_if : Env → ℕ → Bytes → Bytes → Option UdpAddr → RelayServer → Outcome
send_if env packet_type id payload none srv = idle_outcome srv
send_if env packet_type id payload (some to) srv = send_packet env packet_type id payload to srv

-- The errors of its writes are dropped.
pub broadcast_control : Env → Session → ℕ → Bytes → RelayServer → Outcome
broadcast_control env s packet_type payload srv =
    and_then (send_if env packet_type s.id payload s.peer_a srv)
      (send_if env packet_type s.id payload s.peer_b)

abbrev pub waiting : Bytes
waiting = codes "waiting"

abbrev pub paired : Bytes
paired = codes "paired"

abbrev pub pong : Bytes
pong = codes "pong"

abbrev pub is_some {ℓ} : {A : Type ℓ} → Option A → Bool
is_some none = false
is_some (some a) = true

pub handle_connect : Env → Bytes → UdpAddr → RelayServer → Outcome
handle_connect env payload from srv = elim (env.parse_connect payload) [
  | none ↦ fail_with bad_connect_payload srv
  | some token ↦
      if length token == 0
      then fail_with empty_session_token srv
      else (let (s, created) = create_session env token from srv in
          if is_some s.peer_a && is_some s.peer_b
          then and_then (broadcast_control env s packet_type_ping paired created)
              (send_packet env packet_type_ping s.id paired from)
          else send_packet env packet_type_ping s.id waiting from created)
]

pub handle_data : Env → Bytes → Bytes → UdpAddr → RelayServer → Outcome
handle_data env id packet from srv = elim (get_session_by_id id srv) [
  | none ↦ fail_with unknown_session srv
  | some s ↦ forward_packet env s packet from srv
]

pub handle_ping : Env → Bytes → UdpAddr → RelayServer → Outcome
handle_ping env id from srv = elim (get_session_by_id id srv) [
  | none ↦ fail_with unknown_session srv
  | some s ↦ send_packet env packet_type_ping s.id pong from (touch_session env.now s srv)
]

pub handle_disconnect : Bytes → RelayServer → Outcome
handle_disconnect id srv = elim (get_session_by_id id srv) [
  | none ↦ idle_outcome srv
  | some s ↦ idle_outcome (remove_session s.id srv)
]

pub handle_packet : Env → Bytes → UdpAddr → RelayServer → Outcome
handle_packet env packet from srv =
    let packet_type = get_or packet 0 0 in
    let id = take 16 (drop 1 packet) in
    if ltb (length packet) packet_header_size
    then fail_with invalid_packet_length srv
    else if packet_type == packet_type_connect
    then handle_connect env (drop packet_header_size packet) from srv
    else if packet_type == packet_type_data
    then handle_data env id packet from srv
    else if packet_type == packet_type_ping
    then handle_ping env id from srv
    else if packet_type == packet_type_disconnect
    then handle_disconnect id srv
    else fail_with unknown_packet_type srv
