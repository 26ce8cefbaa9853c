-- ===== src/Relay/Server/Lemmas.antt =====
-- The maps of the relay through writes to the socket.
use vpn_cloude.Base.{ℕ, ◌≡◌, refl, ◌∙◌, Option, none, some, Bytes, arith}
use vpn_cloude.Relay.Addr.{UdpAddr}
use vpn_cloude.Relay.Sessions.{Session, RelayServer, Env, update_active_session_gauge}
use vpn_cloude.Relay.Server.{write_packet, send_packet, send_if, broadcast_control}

-- The two states have the same sessions, tokens and socket.
pub record SameMaps (a b : RelayServer) : Type 0 where
  pub sessions : a.sessions ≡ b.sessions
  pub tokens : a.token_to_session ≡ b.token_to_session
  pub socket : a.conn ≡ b.conn

pub update_active_session_gauge-SameMaps :
    (srv : RelayServer) → SameMaps (update_active_session_gauge srv) srv
unfolding update_active_session_gauge
update_active_session_gauge-SameMaps srv = record { sessions = refl; tokens = refl; socket = refl }

pub write_packet-SameMaps :
    (env : Env) (packet : Bytes) (to : UdpAddr) (srv : RelayServer)
    → SameMaps (write_packet env packet to srv).server srv
unfolding write_packet
write_packet-SameMaps env packet to srv = ground arith

pub send_packet-SameMaps :
    (env : Env) (t : ℕ) (id payload : Bytes) (to : UdpAddr) (srv : RelayServer)
    → SameMaps (send_packet env t id payload to srv).server srv
unfolding send_packet
send_packet-SameMaps env t id payload to srv = write_packet-SameMaps env _ to srv

send_if-SameMaps :
    (env : Env) (t : ℕ) (id payload : Bytes) (to : Option UdpAddr) (srv : RelayServer)
    → SameMaps (send_if env t id payload to srv).server srv
unfolding send_if
send_if-SameMaps env t id payload none srv = record {
  sessions = refl;
  tokens = refl;
  socket = refl;
}
send_if-SameMaps env t id payload (some to) srv = send_packet-SameMaps env t id payload to srv

pub broadcast_control-SameMaps :
    (env : Env) (s : Session) (t : ℕ) (payload : Bytes) (srv : RelayServer)
    → SameMaps (broadcast_control env s t payload srv).server srv
unfolding broadcast_control
broadcast_control-SameMaps env s t payload srv =
    let first = send_if-SameMaps env t s.id payload s.peer_a srv in
    let second =
      send_if-SameMaps env t s.id payload s.peer_b
        (send_if env t s.id payload s.peer_a srv).server in
    record {
      sessions = second.sessions ∙ first.sessions;
      tokens = second.tokens ∙ first.tokens;
      socket = second.socket ∙ first.socket;
    }
