-- ===== src/Relay/Server/Keeps.antt =====
-- The maps of relay/internal/relay_server.go through each operation.
use vpn_cloude.Base.{
  ℕ, ◌≡◌, refl, sym, subst, none, some, Bytes, Option-cases, if_both, take, drop, inl, inr, arith,
}
use vpn_cloude.Base.Assoc.{lookup}
use vpn_cloude.Relay.Addr.{UdpAddr, same_addr}
use vpn_cloude.Relay.Sessions.{
  Session, RelayServer, Env, session_id, session_of_token, join_existing, fresh_session,
  add_session, create_session, get_session_by_id, touch_session, remove_session,
  update_active_session_gauge,
}
use vpn_cloude.Relay.Server.{
  Outcome, RelayError, fail_with, forward_packet, handle_connect, handle_data, handle_ping,
  handle_disconnect, handle_packet, broadcast_control, packet_type_ping, paired, waiting, pong,
  destination_addr,
}
use vpn_cloude.Relay.Server.Lemmas.{
  SameMaps, write_packet-SameMaps, send_packet-SameMaps, broadcast_control-SameMaps,
}
use vpn_cloude.Relay.Server.Consistent.{
  IsSession, IsConsistent, update-IsConsistent, add-IsConsistent, remove-IsConsistent,
}

abbrev pub Consistent : RelayServer → Type 0
Consistent srv = IsConsistent srv.sessions srv.token_to_session

-- The id that the next new session gets is not in use.
abbrev pub Fresh : Env → RelayServer → Type 0
Fresh env srv = lookup (session_id env) srv.sessions ≡ none

same-Consistent : {a b : RelayServer} → SameMaps a b → Consistent b → Consistent a
same-Consistent {a} {b} same v =
    subst (λ ts. IsConsistent a.sessions ts) (sym same.tokens)
      (subst (λ ss. IsConsistent ss b.token_to_session) (sym same.sessions) v)

join_existing_keeps :
    (now : ℕ) (peer : UdpAddr) (s : Session)
    → IsSession s
    → let s' = join_existing now peer s in (s'.id ≡ s.id) × (s'.token ≡ s.token) × IsSession s'
unfolding join_existing same_addr
join_existing_keeps now peer s ok = ground arith

touch-Consistent :
    (now : ℕ) (id : Bytes) (s : Session) (srv : RelayServer)
    → lookup id srv.sessions ≡ some s
    → Consistent srv
    → Consistent (touch_session now s srv)
unfolding touch_session
touch-Consistent now id s srv found v =
    let its_id = v.own_id id s found in
    let ok = v.valid id s found in
    rw its_id (
      update-IsConsistent _ _ v id s (record s { id = id; last_activity = now }) found (sym its_id)
        refl (record { has_a = ok.has_a; apart = ok.apart }))

remove-Consistent :
    (id : Bytes) (srv : RelayServer) → Consistent srv → Consistent (remove_session id srv)
unfolding remove_session update_active_session_gauge
remove-Consistent id srv v = elim (Option-cases (lookup id srv.sessions)) [
  | inl gone ↦ rw (gone, remove_session) v
  | inr (s, found) ↦ rw (found, remove_session) (remove-IsConsistent _ _ v id s found)
]

-- A token that leads to no session is unknown, since each known token leads to one.
no_session-no_token :
    (token : Bytes) (srv : RelayServer)
    → Consistent srv
    → session_of_token token srv ≡ none
    → lookup token srv.token_to_session ≡ none
unfolding session_of_token
no_session-no_token token srv v e = elim (Option-cases (lookup token srv.token_to_session)) [
  | inl gone ↦ gone
  | inr (k, found) ↦
      let (s, at_k, its_token) = v.leads token k found in absurd (ground (arith, at_k, found, e))
]

add-Consistent :
    (env : Env) (token : Bytes) (peer : UdpAddr) (srv : RelayServer)
    → Fresh env srv
    → lookup token srv.token_to_session ≡ none
    → Consistent srv
    → Consistent (add_session env token peer srv).1
unfolding add_session update_active_session_gauge fresh_session same_addr
add-Consistent env token peer srv fresh no_token v =
    add-IsConsistent _ _ v (fresh_session env token peer) fresh no_token
      (record { has_a = refl; apart = refl })

pub session_of_token_found :
    (token : Bytes) (srv : RelayServer) {key : Bytes} {s : Session}
    → session_of_token token srv ≡ some (key, s)
    → (lookup token srv.token_to_session ≡ some key) × (lookup key srv.sessions ≡ some s)
unfolding session_of_token
session_of_token_found token srv {key} {s} e =
    elim (Option-cases (lookup token srv.token_to_session)) [
      | inl gone ↦ absurd (ground (arith, gone))
      | inr (k, found) ↦ ground (arith, found)
    ]

create-Consistent :
    (env : Env) (token : Bytes) (peer : UdpAddr) (srv : RelayServer)
    → Fresh env srv
    → Consistent srv
    → Consistent (create_session env token peer srv).1
unfolding create_session update_active_session_gauge
create-Consistent env token peer srv fresh v = elim (Option-cases (session_of_token token srv)) [
  | inl absent ↦
      rw (absent, create_session)
        (add-Consistent env token peer srv fresh (no_session-no_token token srv v absent) v)
  | inr ((key, s), known) ↦
      let found : lookup key srv.sessions ≡ some s = (session_of_token_found token srv known).1 in
      let (same_id, same_token, ok) = join_existing_keeps env.now peer s (v.valid key s found) in
      rw (known, create_session)
        (update-IsConsistent _ _ v key s (join_existing env.now peer s) found same_id same_token ok)
]

connect-Consistent :
    (env : Env) (payload : Bytes) (from : UdpAddr) (srv : RelayServer)
    → Fresh env srv
    → Consistent srv
    → Consistent (handle_connect env payload from srv).server
unfolding handle_connect
connect-Consistent env payload from srv fresh v = elim (Option-cases (env.parse_connect payload)) [
  | inl bad ↦ rw (bad, handle_connect) v
  | inr (token, parsed) ↦
      let (s, created) = create_session env token from srv in
      let kept = create-Consistent env token from srv fresh v in
      let told = broadcast_control env s packet_type_ping paired created in
      rw (parsed, handle_connect)
        (ground (
          arith,
          v,
          same-Consistent (send_packet-SameMaps env packet_type_ping s.id waiting from created)
              kept,
          same-Consistent (send_packet-SameMaps env packet_type_ping s.id paired from told.server) (
              same-Consistent (broadcast_control-SameMaps env s packet_type_ping paired created)
                kept),
        ))
]

data-Consistent :
    (env : Env) (id packet : Bytes) (from : UdpAddr) (srv : RelayServer)
    → Consistent srv
    → Consistent (handle_data env id packet from srv).server
unfolding handle_data get_session_by_id forward_packet
data-Consistent env id packet from srv v = elim (Option-cases (lookup id srv.sessions)) [
  | inl gone ↦ rw (gone, handle_data) v
  | inr (s, found) ↦
      let touched = touch-Consistent env.now id s srv found v in
      rw (found, handle_data)
        (elim (Option-cases (destination_addr s from)) [
          | inl stranger ↦ rw (stranger, forward_packet) touched
          | inr (to, peer) ↦
              rw (peer, forward_packet)
                (same-Consistent (write_packet-SameMaps env packet to _) touched)
        ])
]

ping-Consistent :
    (env : Env) (id : Bytes) (from : UdpAddr) (srv : RelayServer)
    → Consistent srv
    → Consistent (handle_ping env id from srv).server
unfolding handle_ping get_session_by_id
ping-Consistent env id from srv v = elim (Option-cases (lookup id srv.sessions)) [
  | inl gone ↦ rw (gone, handle_ping) v
  | inr (s, found) ↦
      rw (found, handle_ping)
        (same-Consistent (send_packet-SameMaps env packet_type_ping s.id pong from _)
          (touch-Consistent env.now id s srv found v))
]

disconnect-Consistent :
    (id : Bytes) (srv : RelayServer) → Consistent srv → Consistent (handle_disconnect id srv).server
unfolding handle_disconnect get_session_by_id
disconnect-Consistent id srv v = elim (Option-cases (lookup id srv.sessions)) [
  | inl gone ↦ rw (gone, handle_disconnect) v
  | inr (s, found) ↦ rw (found, handle_disconnect) (remove-Consistent s.id srv v)
]

-- What holds of every kind of packet, and of a refusal that leaves the state, holds of any packet.
pub handle_packet_cases {ℓ} :
    (P : Outcome → Type ℓ) (env : Env) (packet : Bytes) (from : UdpAddr) (srv : RelayServer)
    → let id = take 16 (drop 1 packet) in
      ((e : RelayError) → P (fail_with e srv))
      → P (handle_connect env (drop 17 packet) from srv)
      → P (handle_data env id packet from srv)
      → P (handle_ping env id from srv)
      → P (handle_disconnect id srv)
      → P (handle_packet env packet from srv)
unfolding handle_packet
handle_packet_cases P env packet from srv refused connected forwarded pinged dropped =
    if_both P _ (refused _) (
      if_both P _ connected
        (if_both P _ forwarded (if_both P _ pinged (if_both P _ dropped (refused _)))))

-- Whatever packet arrives from whomever, the two maps stay consistent, if the id of a new session is
-- not one in use.
pub handle_packet-Consistent :
    (env : Env) (packet : Bytes) (from : UdpAddr) (srv : RelayServer)
    → Fresh env srv
    → Consistent srv
    → Consistent (handle_packet env packet from srv).server
handle_packet-Consistent env packet from srv fresh v =
    let id = take 16 (drop 1 packet) in
    handle_packet_cases (λ o. Consistent o.server) env packet from srv (λ e. v)
      (connect-Consistent env (drop 17 packet) from srv fresh v)
      (data-Consistent env id packet from srv v) (ping-Consistent env id from srv v)
      (disconnect-Consistent id srv v)
