-- ===== src/Relay/Server/Targets.antt =====
-- Whom a packet can make the relay send to.
use vpn_cloude.Base.{
  ℕ, ◌≡◌, refl, sym, ◌∙◌, subst, ◌⊎◌, Option, none, some, List, ◌++◌, Bytes, bytes_equal_iff,
  Option-cases, inl, inr, arith, take, drop, All, All-append,
}
use vpn_cloude.Base.Assoc.{lookup, lookup-insert}
use vpn_cloude.Relay.Addr.{UdpAddr}
use vpn_cloude.Relay.Sessions.{
  Session, RelayServer, Env, session_of_token, join_existing, fresh_session, add_session,
  create_session, get_session_by_id, touch_session, update_active_session_gauge,
}
use vpn_cloude.Relay.Server.{
  Outcome, forward_packet, destination_addr, handle_connect, handle_data, handle_ping,
  handle_disconnect, handle_packet, write_packet, send_packet, send_if, broadcast_control,
  packet_type_ping, paired, waiting, pong,
}
use vpn_cloude.Relay.Server.Lemmas.{
  send_packet-SameMaps, broadcast_control-SameMaps, write_packet-SameMaps,
}
use vpn_cloude.Relay.Server.Keeps.{handle_packet_cases}

abbrev pub IsPeer : Session → UdpAddr → Type 0
IsPeer s to = (s.peer_a ≡ some to) ⊎ (s.peer_b ≡ some to)

-- The sender of the packet, or a peer of one of the sessions.
abbrev pub IsTarget : UdpAddr → List (Bytes × Session) → Bytes × UdpAddr → Type 0
IsTarget from ss (packet, to) =
    (to ≡ from) ⊎ ((k : Bytes) × (s : Session) × (lookup k ss ≡ some s) × IsPeer s to)

abbrev pub OnTarget : UdpAddr → Outcome → Type 0
OnTarget from o = All (IsTarget from o.server.sessions) o.sent

same-OnTarget :
    (from : UdpAddr) (ss : List (Bytes × Session)) (o : Outcome)
    → o.server.sessions ≡ ss
    → All (IsTarget from ss) o.sent
    → OnTarget from o
same-OnTarget from ss o same h = subst (λ x. All (IsTarget from x) o.sent) (sym same) h

-- A packet to `to` at most.
write_packet-All :
    (P : Bytes × UdpAddr → Type 0) (env : Env) (packet : Bytes) (to : UdpAddr) (srv : RelayServer)
    → P (packet, to)
    → All P (write_packet env packet to srv).sent
unfolding write_packet
write_packet-All P env packet to srv h = ground (arith, h)

send_packet-All :
    (P : Bytes × UdpAddr → Type 0) (env : Env) (t : ℕ) (id payload : Bytes) (to : UdpAddr)
    (srv : RelayServer)
    → ((packet : Bytes) → P (packet, to))
    → All P (send_packet env t id payload to srv).sent
unfolding send_packet
send_packet-All P env t id payload to srv h = write_packet-All P env _ to srv (h _)

send_if-All :
    (P : Bytes × UdpAddr → Type 0) (env : Env) (t : ℕ) (id payload : Bytes) (to : Option UdpAddr)
    (srv : RelayServer)
    → ((packet : Bytes) (x : UdpAddr) → to ≡ some x → P (packet, x))
    → All P (send_if env t id payload to srv).sent
unfolding send_if
send_if-All P env t id payload none srv h = tt
send_if-All P env t id payload (some to) srv h =
    send_packet-All P env t id payload to srv (λ packet. h packet to refl)

broadcast_control-All :
    (P : Bytes × UdpAddr → Type 0) (env : Env) (s : Session) (t : ℕ) (payload : Bytes)
    (srv : RelayServer)
    → ((packet : Bytes) (x : UdpAddr) → IsPeer s x → P (packet, x))
    → All P (broadcast_control env s t payload srv).sent
unfolding broadcast_control
broadcast_control-All P env s t payload srv h =
    All-append P (send_if env t s.id payload s.peer_a srv).sent _
      (send_if-All P env t s.id payload s.peer_a srv (λ packet x e. h packet x (inl e)))
      (send_if-All P env t s.id payload s.peer_b _ (λ packet x e. h packet x (inr e)))

destination_addr-IsPeer :
    (s : Session) (from : UdpAddr) {to : UdpAddr} → destination_addr s from ≡ some to → IsPeer s to
unfolding destination_addr
destination_addr-IsPeer s from e = ground (arith, e)

-- The session that a connect packet finds or makes stands in the map afterwards.
pub create_session_found :
    (env : Env) (token : Bytes) (peer : UdpAddr) (srv : RelayServer)
    → let (s, srv') = create_session env token peer srv in
      (k : Bytes) × (lookup k srv'.sessions ≡ some s)
unfolding create_session add_session update_active_session_gauge
create_session_found env token peer srv = elim (Option-cases (session_of_token token srv)) [
  | inl absent ↦
      let new = fresh_session env token peer in
      (
        new.id,
        rw (absent, create_session)
            (ground
              (arith, lookup-insert new.id new.id new srv.sessions, bytes_equal_iff new.id new.id)),
      )
  | inr ((key, old), known) ↦
      let new = join_existing env.now peer old in
      (
        key,
        rw (known, create_session)
            (ground (arith, lookup-insert key key new srv.sessions, bytes_equal_iff key key)),
      )
]

connect-OnTarget :
    (env : Env) (payload : Bytes) (from : UdpAddr) (srv : RelayServer)
    → OnTarget from (handle_connect env payload from srv)
unfolding handle_connect
connect-OnTarget env payload from srv = elim (Option-cases (env.parse_connect payload)) [
  | inl bad ↦ rw (bad, handle_connect) tt
  | inr (token, parsed) ↦
      let (s, created) = create_session env token from srv in
      let (k, stands) = create_session_found env token from srv in
      let P = IsTarget from created.sessions in
      let told = broadcast_control env s packet_type_ping paired created in
      let answered = send_packet env packet_type_ping s.id paired from told.server in
      let waits = send_packet env packet_type_ping s.id waiting from created in
      let told_ok : All P told.sent =
        broadcast_control-All P env s packet_type_ping paired created
          (λ packet x peer. inr (k, s, stands, peer)) in
      let answered_ok : All P answered.sent =
        send_packet-All P env packet_type_ping s.id paired from told.server (λ packet. inl refl) in
      let waits_ok : All P waits.sent =
        send_packet-All P env packet_type_ping s.id waiting from created (λ packet. inl refl) in
      let pair_sent = All-append P told.sent answered.sent told_ok answered_ok in
      let same = send_packet-SameMaps env packet_type_ping s.id waiting from created in
      let same' = send_packet-SameMaps env packet_type_ping s.id paired from told.server in
      let same'' = broadcast_control-SameMaps env s packet_type_ping paired created in
      rw (parsed, handle_connect)
        (ground (
          arith,
          same-OnTarget from created.sessions
              (record {
                server = answered.server;
                sent = told.sent ++ answered.sent;
                error = answered.error;
              })
              (same'.sessions ∙ same''.sessions) pair_sent,
          same-OnTarget from created.sessions waits same.sessions waits_ok,
        ))
]

data-OnTarget :
    (env : Env) (id packet : Bytes) (from : UdpAddr) (srv : RelayServer)
    → OnTarget from (handle_data env id packet from srv)
unfolding handle_data get_session_by_id forward_packet touch_session
data-OnTarget env id packet from srv = elim (Option-cases (lookup id srv.sessions)) [
  | inl gone ↦ rw (gone, handle_data) tt
  | inr (s, found) ↦
      let touched = touch_session env.now s srv in
      rw (found, handle_data)
        (elim (Option-cases (destination_addr s from)) [
          | inl stranger ↦ rw (stranger, forward_packet) tt
          | inr (to, peer) ↦
              rw (peer, forward_packet)
                (same-OnTarget from touched.sessions (write_packet env packet to touched)
                  (write_packet-SameMaps env packet to touched).sessions
                  (write_packet-All (IsTarget from touched.sessions) env packet to touched (
                    inr (
                      s.id,
                      record s { last_activity = env.now },
                      ground (
                        arith,
                        lookup-insert s.id s.id (record s { last_activity = env.now }) srv.sessions,
                        bytes_equal_iff s.id s.id,
                      ),
                      destination_addr-IsPeer s from peer,
                    ))))
        ])
]

ping-OnTarget :
    (env : Env) (id : Bytes) (from : UdpAddr) (srv : RelayServer)
    → OnTarget from (handle_ping env id from srv)
unfolding handle_ping get_session_by_id
ping-OnTarget env id from srv = elim (Option-cases (lookup id srv.sessions)) [
  | inl gone ↦ rw (gone, handle_ping) tt
  | inr (s, found) ↦
      rw (found, handle_ping)
        (send_packet-All _ env packet_type_ping s.id pong from _ (λ packet. inl refl))
]

disconnect-OnTarget :
    (from : UdpAddr) (id : Bytes) (srv : RelayServer) → OnTarget from (handle_disconnect id srv)
unfolding handle_disconnect get_session_by_id
disconnect-OnTarget from id srv = elim (Option-cases (lookup id srv.sessions)) [
  | inl gone ↦ rw (gone, handle_disconnect) tt
  | inr (s, found) ↦ rw (found, handle_disconnect) tt
]

-- Every datagram that the relay sends while it handles a packet goes to the packet's sender or to
-- a peer of a session that stands in the map afterwards.
pub handle_packet-OnTarget :
    (env : Env) (packet : Bytes) (from : UdpAddr) (srv : RelayServer)
    → OnTarget from (handle_packet env packet from srv)
handle_packet-OnTarget env packet from srv =
    let id = take 16 (drop 1 packet) in
    handle_packet_cases (OnTarget from) env packet from srv (λ e. tt)
      (connect-OnTarget env (drop 17 packet) from srv) (data-OnTarget env id packet from srv)
      (ping-OnTarget env id from srv) (disconnect-OnTarget from id srv)
