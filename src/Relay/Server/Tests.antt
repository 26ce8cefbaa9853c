-- ===== src/Relay/Server/Tests.antt =====
-- The relay's theorems at a server with one paired session.
use vpn_cloude.Base.{
  ℕ, ◌≡◌, refl, true, false, none, some, [], ◌∷◌, ◌++◌, Bytes, replicate, bytes_equal,
  bytes_equal_iff, inl, arith, All,
}
use vpn_cloude.Base.Assoc.{lookup}
use vpn_cloude.Relay.Addr.{UdpAddr, same_addr, ip_equal}
use vpn_cloude.Relay.Sessions.{
  Session, RelayServer, Env, session_id, session_of_token, fresh_session, remove_stale_sessions,
  new_relay_server,
}
use vpn_cloude.Relay.Server.{
  handle_connect, handle_data, handle_disconnect, handle_packet, unknown_session, fail_with,
}
use vpn_cloude.Relay.Server.Consistent.{IsSession}
use vpn_cloude.Relay.Server.Keeps.{Consistent}
use vpn_cloude.Relay.Server.Sweep.{kept, count_stale, remove_stale_sessions_lem}
use vpn_cloude.Relay.Server.Pairing.{Stays, handle_packet-Stays}
use vpn_cloude.Relay.Server.Forward.{IsData, handle_packet-forwards}
use vpn_cloude.Relay.Server.Targets.{IsTarget, handle_packet-OnTarget}
use vpn_cloude.Relay.Server.Reach.{
  start, later, packet_in, cleanup, Reach-Consistent, connect_twice_pairs, disconnect_frees,
}

abbrev addr_a : UdpAddr
addr_a = record { ip = 10 ∷ 0 ∷ 0 ∷ 1 ∷ []; port = 4000; zone = [] }

abbrev addr_b : UdpAddr
addr_b = record { ip = 10 ∷ 0 ∷ 0 ∷ 2 ∷ []; port = 5000; zone = [] }

abbrev addr_c : UdpAddr
addr_c = record { ip = 10 ∷ 0 ∷ 0 ∷ 3 ∷ []; port = 4000; zone = [] }

abbrev key : Bytes
key = replicate 16 7

abbrev token : Bytes
token = 65 ∷ 66 ∷ []

abbrev env : ℕ → Env
env now = record {
  now = now;
  random_id = some (replicate 16 9);
  write_ok = λ packet to. true;
  parse_connect = λ payload. some payload;
}

abbrev both : Session
both = record {
  id = key;
  token = token;
  peer_a = some addr_a;
  peer_b = some addr_b;
  created_at = 1;
  last_activity = 2;
}

abbrev server : RelayServer
server = record {
  sessions = (key, both) ∷ [];
  token_to_session = (token, key) ∷ [];
  conn = true;
  metrics = none;
}

abbrev data_packet : Bytes
data_packet = 2 ∷ (key ++ (1 ∷ 2 ∷ 3 ∷ []))

abbrev connect_packet : Bytes
connect_packet = 1 ∷ (key ++ token)

both-IsSession : IsSession both
unfolding same_addr ip_equal bytes_equal
both-IsSession = record { has_a = refl; apart = refl }

server-Consistent : Consistent server
server-Consistent =
    unfold lookup in
    record {
      distinct = (refl, tt);
      own_id = λ k s e. ground (arith, bytes_equal_iff key k, e);
      own_token = λ k s e. ground (arith, bytes_equal_iff key k, bytes_equal_iff token s.token, e);
      valid = λ k s e. ground (arith, bytes_equal_iff key k, e, both-IsSession);
      leads = λ t k e. (
        both,
        ground (arith, bytes_equal_iff token t, bytes_equal_iff key k, e),
        ground (arith, bytes_equal_iff token t, e),
      );
    }

Reach-Consistent_example :
    Consistent
      (remove_stale_sessions 9
        (handle_packet (env 5) connect_packet addr_c new_relay_server).server).1
Reach-Consistent_example = Reach-Consistent (
    later
      (later (start new_relay_server refl refl)
        (packet_in (env 5) connect_packet addr_c (unfold lookup bytes_equal in refl)))
      (cleanup 9))

handle_packet-Stays_example :
    Stays key both (handle_packet (env 5) connect_packet addr_c server).server
handle_packet-Stays_example =
    handle_packet-Stays (env 5) connect_packet addr_c server key both server-Consistent
      (unfold lookup session_id bytes_equal in refl) (unfold lookup bytes_equal in refl) refl

data_packet-IsData : IsData data_packet
data_packet-IsData = record { header = omega arith; typed = refl }

handle_packet-forwards_example :
    let o = handle_packet (env 5) data_packet addr_a server in
    (o.sent ≡ (data_packet, addr_b) ∷ [])
    × (o.error ≡ none)
    × (lookup key o.server.sessions ≡ some (record both { last_activity = 5 }))
handle_packet-forwards_example =
    handle_packet-forwards (env 5) data_packet addr_a addr_b server both server-Consistent
      data_packet-IsData (unfold lookup bytes_equal in refl)
      (inl (unfold same_addr ip_equal bytes_equal in refl, refl)) refl refl

remove_stale_sessions_lem_example :
    let (removed, srv') = remove_stale_sessions 400_000_000_000 server in
    ((k : Bytes) → lookup k srv'.sessions ≡ kept 400_000_000_000 (lookup k server.sessions))
    × (removed ≡ count_stale 400_000_000_000 server.sessions)
    × Consistent srv'
remove_stale_sessions_lem_example =
    remove_stale_sessions_lem 400_000_000_000 server server-Consistent

handle_packet-OnTarget_example :
    let o = handle_packet (env 5) connect_packet addr_c server in
    All (IsTarget addr_c o.server.sessions) o.sent
handle_packet-OnTarget_example = handle_packet-OnTarget (env 5) connect_packet addr_c server

connect_twice_pairs_example :
    session_of_token token
      (handle_connect
        (env 6)
        token
        addr_b
        (handle_connect (env 5) token addr_a new_relay_server).server).server
    ≡ some (
      session_id (env 5),
      record (fresh_session (env 5) token addr_a) { peer_b = some addr_b; last_activity = 6 },
    )
connect_twice_pairs_example =
    connect_twice_pairs (env 5) (env 6) token token addr_a addr_b new_relay_server refl refl
      (omega arith) (unfold lookup bytes_equal in refl)
      (unfold same_addr ip_equal bytes_equal in refl)

disconnect_frees_example :
    let after = (handle_disconnect key server).server in
    (handle_data (env 5) key data_packet addr_a after ≡ fail_with unknown_session after)
    × (session_of_token token after ≡ none)
    × ((k : Bytes) → bytes_equal key k ≡ false → lookup k after.sessions ≡ lookup k server.sessions)
disconnect_frees_example =
    disconnect_frees (env 5) key data_packet addr_a server both server-Consistent
      (unfold lookup bytes_equal in refl)
