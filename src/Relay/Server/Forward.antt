-- ===== src/Relay/Server/Forward.antt =====
-- Where the datagrams of the relay go.
use vpn_cloude.Base.{
  ◌≤◌, ◌≡◌, ◌⊎◌, true, false, none, some, [], ◌∷◌, Bytes, length, get_or, bytes_equal_iff, arith,
  take, drop,
}
use vpn_cloude.Base.Assoc.{lookup, lookup-insert}
use vpn_cloude.Relay.Addr.{UdpAddr, same_addr}
use vpn_cloude.Relay.Sessions.{Session, RelayServer, Env, get_session_by_id, touch_session}
use vpn_cloude.Relay.Server.{
  not_part_of_session, forward_packet, destination_addr, handle_data, handle_packet, write_packet,
  packet_type_data,
}
use vpn_cloude.Relay.Server.Keeps.{Consistent}

-- `to` is the peer across from the sender.
abbrev pub Across : Session → UdpAddr → UdpAddr → Type 0
Across s from to =
    ((same_addr s.peer_a (some from) ≡ true) × (s.peer_b ≡ some to))
    ⊎ ((same_addr s.peer_a (some from) ≡ false)
        × (same_addr s.peer_b (some from) ≡ true)
        × (s.peer_a ≡ some to))

-- A data packet.
pub record IsData (packet : Bytes) : Type 0 where
  pub header : 17 ≤ length packet
  pub typed : get_or packet 0 0 ≡ packet_type_data

-- In a consistent state with an open socket that takes the write, a data packet of one peer of a session
-- goes to the other peer, as it is and to nobody else; the session's time is set and nothing else of it
-- changes.
pub handle_packet-forwards :
    (env : Env) (packet : Bytes) (from to : UdpAddr) (srv : RelayServer) (s : Session)
    → Consistent srv
    → IsData packet
    → lookup (take 16 (drop 1 packet)) srv.sessions ≡ some s
    → Across s from to
    → srv.conn ≡ true
    → env.write_ok packet to ≡ true
    → let o = handle_packet env packet from srv in
      (o.sent ≡ (packet, to) ∷ [])
      × (o.error ≡ none)
      × (lookup (take 16 (drop 1 packet)) o.server.sessions
          ≡ some (record s { last_activity = env.now }))
unfolding handle_packet handle_data get_session_by_id forward_packet destination_addr touch_session
    write_packet
handle_packet-forwards env packet from to srv s v d found across socket writes =
    let id = take 16 (drop 1 packet) in
    ground (
      arith,
      d.header,
      d.typed,
      found,
      v.own_id id s found,
      lookup-insert s.id id (record s { last_activity = env.now }) srv.sessions,
      bytes_equal_iff s.id id,
    )

-- A data packet of anybody else is refused, and nothing is sent.
handle_packet-strangers :
    (env : Env) (packet : Bytes) (from : UdpAddr) (srv : RelayServer) (s : Session)
    → IsData packet
    → lookup (take 16 (drop 1 packet)) srv.sessions ≡ some s
    → same_addr s.peer_a (some from) ≡ false
    → same_addr s.peer_b (some from) ≡ false
    → let o = handle_packet env packet from srv in
      (o.sent ≡ []) × (o.error ≡ some not_part_of_session)
unfolding handle_packet handle_data get_session_by_id forward_packet destination_addr touch_session
handle_packet-strangers env packet from srv s d found not_a not_b =
    ground (arith, d.header, d.typed, found)
