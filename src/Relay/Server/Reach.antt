-- ===== src/Relay/Server/Reach.antt =====
-- Runs of the relay: packets and cleanups in any order, from a server with no sessions.
use vpn_cloude.Base.{
  ℕ, ◌<◌, ◌≡◌, refl, ◌∙◌, Bool, false, none, some, [], Bytes, length, bytes_equal, bytes_equal_iff,
  arith,
}
use vpn_cloude.Base.Assoc.{lookup, lookup-insert, lookup-delete}
use vpn_cloude.Relay.Addr.{UdpAddr, same_addr}
use vpn_cloude.Relay.Sessions.{
  Session, RelayServer, Env, session_id, session_of_token, join_existing, fresh_session,
  add_session, create_session, get_session_by_id, remove_session, remove_stale_sessions,
  update_active_session_gauge,
}
use vpn_cloude.Relay.Server.{
  unknown_session, handle_connect, handle_data, handle_disconnect, handle_packet, broadcast_control,
  packet_type_ping, paired, waiting, fail_with,
}
use vpn_cloude.Relay.Server.Consistent.{IsConsistent}
use vpn_cloude.Relay.Server.Lemmas.{SameMaps, send_packet-SameMaps, broadcast_control-SameMaps}
use vpn_cloude.Relay.Server.Keeps.{
  Consistent, Fresh, handle_packet-Consistent, session_of_token_found,
}
use vpn_cloude.Relay.Server.Sweep.{remove_stale_sessions_lem}

-- One event: a packet is handled, the cleanup runs, or the socket is opened or closed.
pub data Step (srv : RelayServer) : RelayServer → Type 0 where
  packet_in :
      (env : Env) (packet : Bytes) (from : UdpAddr)
      → Fresh env srv
      → Step srv (handle_packet env packet from srv).server
  cleanup : (now : ℕ) → Step srv (remove_stale_sessions now srv).1
  socket : (conn : Bool) → Step srv (record srv { conn = conn })

pub data Reach : RelayServer → Type 0 where
  start : (srv : RelayServer) → srv.sessions ≡ [] → srv.token_to_session ≡ [] → Reach srv
  later : {a b : RelayServer} → Reach a → Step a b → Reach b

Step-Consistent : {a b : RelayServer} → Step a b → Consistent a → Consistent b
Step-Consistent (packet_in env packet from fresh) v =
    handle_packet-Consistent env packet from _ fresh v
Step-Consistent {a} (cleanup now) v =
    let (left, count, kept) = remove_stale_sessions_lem now a v in kept
Step-Consistent {a} (socket conn) v = v

empty-Consistent : IsConsistent [] []
unfolding lookup
empty-Consistent = record {
  distinct = tt;
  own_id = λ k s e. ground (arith, e);
  own_token = λ k s e. ground (arith, e);
  valid = λ k s e. absurd (ground (arith, e));
  leads = λ t k e. absurd (ground (arith, e));
}

-- In every state that the relay can get to, if no new session got an id in use, each session stands under
-- its own id, its token leads to it alone, no token leads to a session that is gone, and its two peers have different addresses.
pub Reach-Consistent : {srv : RelayServer} → Reach srv → Consistent srv
Reach-Consistent (start srv no_sessions no_tokens) = rw (no_sessions, no_tokens) empty-Consistent
Reach-Consistent (later r s) = Step-Consistent s (Reach-Consistent r)

connect-SameMaps :
    (env : Env) (payload token : Bytes) (from : UdpAddr) (srv : RelayServer)
    → env.parse_connect payload ≡ some token
    → 0 < length token
    → SameMaps (handle_connect env payload from srv).server (create_session env token from srv).1
unfolding handle_connect
connect-SameMaps env payload token from srv parsed long =
    let (s, created) = create_session env token from srv in
    let told = broadcast_control-SameMaps env s packet_type_ping paired created in
    let answered =
      send_packet-SameMaps env packet_type_ping s.id paired from
        (broadcast_control env s packet_type_ping paired created).server in
    let waits = send_packet-SameMaps env packet_type_ping s.id waiting from created in
    ground (arith, parsed, told, answered, waits)

session_of_token-same :
    (token : Bytes) {x y : RelayServer}
    → SameMaps x y
    → session_of_token token x ≡ session_of_token token y
unfolding session_of_token
session_of_token-same token same = rw (same.tokens, same.sessions) refl

create_session_new :
    (env : Env) (token : Bytes) (peer : UdpAddr) (srv : RelayServer)
    → lookup token srv.token_to_session ≡ none
    → session_of_token token (create_session env token peer srv).1
      ≡ some (session_id env, fresh_session env token peer)
unfolding create_session session_of_token add_session update_active_session_gauge fresh_session
create_session_new env token peer srv unknown =
    let new = fresh_session env token peer in
    ground (
      arith,
      unknown,
      lookup-insert token token new.id srv.token_to_session,
      bytes_equal_iff token token,
      lookup-insert new.id new.id new srv.sessions,
      bytes_equal_iff new.id new.id,
    )

create_session_known :
    (env : Env) (token : Bytes) (peer : UdpAddr) (srv : RelayServer) {key : Bytes} {s : Session}
    → session_of_token token srv ≡ some (key, s)
    → session_of_token token (create_session env token peer srv).1
      ≡ some (key, join_existing env.now peer s)
unfolding create_session update_active_session_gauge session_of_token
create_session_known env token peer srv {key} {s} known =
    let found = (session_of_token_found token srv known).0 in
    let new = join_existing env.now peer s in
    ground (arith, known, found, lookup-insert key key new srv.sessions, bytes_equal_iff key key)

-- Two peers connect with a token that no session has, from different addresses. Then the token leads to
-- a session under the id that the first made, with the first as its peer a and the second as its peer b.
pub connect_twice_pairs :
    (first second : Env) (payload token : Bytes) (a b : UdpAddr) (srv : RelayServer)
    → first.parse_connect payload ≡ some token
    → second.parse_connect payload ≡ some token
    → 0 < length token
    → lookup token srv.token_to_session ≡ none
    → same_addr (some a) (some b) ≡ false
    → let srv₁ = (handle_connect first payload a srv).server in
      let srv₂ = (handle_connect second payload b srv₁).server in
      session_of_token token srv₂
      ≡ some (
        session_id first,
        record (fresh_session first token a) { peer_b = some b; last_activity = second.now },
      )
unfolding join_existing fresh_session
connect_twice_pairs first second payload token a b srv parsed parsed' long unknown apart =
    let srv₁ = (handle_connect first payload a srv).server in
    let known =
      session_of_token-same token (connect-SameMaps first payload token a srv parsed long)
      ∙ create_session_new first token a srv unknown in
    session_of_token-same token (connect-SameMaps second payload token b srv₁ parsed' long)
    ∙ create_session_known second token b srv₁ known
    ∙ ground (arith, apart)

-- In a consistent state, after a disconnect of a session that lives, its data packets are refused, its
-- token is free, and the sessions under other ids stand as before.
pub disconnect_frees :
    (env : Env) (id packet : Bytes) (from : UdpAddr) (srv : RelayServer) (s : Session)
    → Consistent srv
    → lookup id srv.sessions ≡ some s
    → let after = (handle_disconnect id srv).server in
      (handle_data env id packet from after ≡ fail_with unknown_session after)
      × (session_of_token s.token after ≡ none)
      × ((k : Bytes) → bytes_equal id k ≡ false → lookup k after.sessions ≡ lookup k srv.sessions)
unfolding handle_disconnect handle_data get_session_by_id remove_session session_of_token
    update_active_session_gauge
disconnect_frees env id packet from srv s v found =
    let its_id = v.own_id id s found in
    let gone = (λ (k : Bytes). lookup-delete id k srv.sessions) in
    rw (found, its_id, handle_disconnect, found, remove_session)
      (
        ground (arith, gone id, bytes_equal_iff id id),
        ground (
          arith,
          lookup-delete s.token s.token srv.token_to_session,
          bytes_equal_iff s.token s.token,
        ),
        (λ k other. ground (arith, gone k)),
      )
