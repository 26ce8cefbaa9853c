-- ===== src/Relay/Server/Pairing.antt =====
-- The peers of a paired session through each packet.
use vpn_cloude.Base.{
  ℕ, ◌≡◌, refl, sym, subst, ◌⊎◌, true, none, some, Bytes, bytes_equal, bytes_equal_iff, Bool-cases,
  Option-cases, inl, inr, arith, if_both, take, drop,
}
use vpn_cloude.Base.Assoc.{lookup, insert, lookup-insert, lookup-delete}
use vpn_cloude.Relay.Addr.{UdpAddr}
use vpn_cloude.Relay.Sessions.{
  Session, RelayServer, Env, session_id, session_of_token, join_existing, fresh_session,
  add_session, create_session, get_session_by_id, touch_session, remove_session,
  update_active_session_gauge,
}
use vpn_cloude.Relay.Server.{
  Outcome, is_some, forward_packet, destination_addr, handle_connect, handle_data, handle_ping,
  handle_disconnect, handle_packet, broadcast_control, packet_type_ping, paired, waiting, pong,
}
use vpn_cloude.Relay.Server.Lemmas.{
  SameMaps, write_packet-SameMaps, send_packet-SameMaps, broadcast_control-SameMaps,
}
use vpn_cloude.Relay.Server.Keeps.{Consistent, Fresh, session_of_token_found, handle_packet_cases}

abbrev pub SamePeers : Session → Session → Type 0
SamePeers s s' =
    (s'.peer_a ≡ s.peer_a) × (s'.peer_b ≡ s.peer_b) × (s'.token ≡ s.token) × (s'.id ≡ s.id)

-- The key leads nowhere, or to a session with the peers, token and id of `s`.
abbrev pub Stays : Bytes → Session → RelayServer → Type 0
Stays k s srv =
    (lookup k srv.sessions ≡ none)
    ⊎ ((s' : Session) × (lookup k srv.sessions ≡ some s') × SamePeers s s')

same-Stays :
    (k : Bytes) (s : Session) {a b : RelayServer} → SameMaps a b → Stays k s b → Stays k s a
same-Stays k s {a} {b} same h =
    subst (λ ss. (lookup k ss ≡ none) ⊎ ((s' : Session) × (lookup k ss ≡ some s') × SamePeers s s'))
      (sym same.sessions) h

join_existing_paired :
    (now : ℕ) (peer : UdpAddr) (s : Session)
    → is_some s.peer_a ≡ true
    → is_some s.peer_b ≡ true
    → SamePeers s (join_existing now peer s)
unfolding join_existing
join_existing_paired now peer s has_a has_b = ground arith

module _ (k : Bytes) (s : Session) (srv : RelayServer)
    (found : lookup k srv.sessions ≡ some s) where
  -- Another session, or this one with the same peers, is written.
  insert-Stays :
      (j : Bytes) (new old : Session)
      → lookup j srv.sessions ≡ some old
      → (k ≡ j → SamePeers old new)
      → (s' : Session) × (lookup k (insert j new srv.sessions) ≡ some s') × SamePeers s s'
  insert-Stays j new old there keeps = elim (Bool-cases (bytes_equal j k)) [
    | inl hit ↦
        let same : j ≡ k = (bytes_equal_iff j k).0 hit in
        (new, ground (arith, lookup-insert j k new srv.sessions), ground (arith, keeps (sym same)))
    | inr miss ↦ (s, ground (arith, lookup-insert j k new srv.sessions), (refl, refl, refl, refl))
  ]

  touch-Stays :
      (now : ℕ) (id : Bytes) (other : Session)
      → lookup id srv.sessions ≡ some other
      → other.id ≡ id
      → Stays k s (touch_session now other srv)
  unfolding touch_session
  touch-Stays now id other there its_id = inr (
      insert-Stays other.id (record other { last_activity = now }) other
        (subst (λ i. lookup i srv.sessions ≡ some other) (sym its_id) there)
        (λ _. (refl, refl, refl, refl)))

  remove-Stays : (id : Bytes) → Stays k s (remove_session id srv)
  unfolding remove_session update_active_session_gauge
  remove-Stays id = elim (Option-cases (lookup id srv.sessions)) [
    | inl gone ↦ rw (gone, remove_session) (inr (s, found, (refl, refl, refl, refl)))
    | inr (other, there) ↦
        rw (there, remove_session)
          (elim (Bool-cases (bytes_equal id k)) [
            | inl hit ↦ inl (ground (arith, lookup-delete id k srv.sessions))
            | inr miss ↦
                inr (s, ground (arith, lookup-delete id k srv.sessions), (refl, refl, refl, refl))
          ])
  ]

  add-Stays :
      (env : Env) (token : Bytes) (peer : UdpAddr)
      → Fresh env srv
      → Stays k s (add_session env token peer srv).1
  unfolding add_session fresh_session update_active_session_gauge
  add-Stays env token peer fresh =
      let new = fresh_session env token peer in
      inr (
        s,
        ground (
          arith,
          lookup-insert (session_id env) k new srv.sessions,
          bytes_equal_iff (session_id env) k,
        ),
        (refl, refl, refl, refl),
      )

  module _ (v : Consistent srv) (has_b : is_some s.peer_b ≡ true) where
    create-Stays :
        (env : Env) (token : Bytes) (peer : UdpAddr)
        → Fresh env srv
        → Stays k s (create_session env token peer srv).1
    unfolding create_session update_active_session_gauge
    create-Stays env token peer fresh = elim (Option-cases (session_of_token token srv)) [
      | inl absent ↦ rw (absent, create_session) (add-Stays env token peer fresh)
      | inr ((key, old), known) ↦
          let there = (session_of_token_found token srv known).1 in
          let same_one : k ≡ key → old ≡ s = λ e. ground arith in
          let keeps : k ≡ key → SamePeers old (join_existing env.now peer old) = λ e.
            join_existing_paired env.now peer old (v.valid key old there).has_a
              (rw (same_one e) has_b) in
          rw (known, create_session)
            (inr (insert-Stays key (join_existing env.now peer old) old there keeps))
    ]

    connect-Stays :
        (env : Env) (payload : Bytes) (from : UdpAddr)
        → Fresh env srv
        → Stays k s (handle_connect env payload from srv).server
    unfolding handle_connect
    connect-Stays env payload from fresh = elim (Option-cases (env.parse_connect payload)) [
      | inl bad ↦ rw (bad, handle_connect) (inr (s, found, (refl, refl, refl, refl)))
      | inr (token, parsed) ↦
          let (new, created) = create_session env token from srv in
          let kept = create-Stays env token from fresh in
          let told = broadcast_control env new packet_type_ping paired created in
          rw (parsed, handle_connect)
            (if_both (λ (o : Outcome). Stays k s o.server) _
              (inr (s, found, (refl, refl, refl, refl)))
              (if_both (λ (o : Outcome). Stays k s o.server) _
                (same-Stays k s
                  (send_packet-SameMaps env packet_type_ping new.id paired from told.server)
                  (same-Stays k s
                    (broadcast_control-SameMaps env new packet_type_ping paired created) kept))
                (same-Stays k s
                  (send_packet-SameMaps env packet_type_ping new.id waiting from created) kept)))
    ]

    data-Stays :
        (env : Env) (id packet : Bytes) (from : UdpAddr)
        → Stays k s (handle_data env id packet from srv).server
    unfolding handle_data get_session_by_id forward_packet
    data-Stays env id packet from = elim (Option-cases (lookup id srv.sessions)) [
      | inl gone ↦ rw (gone, handle_data) (inr (s, found, (refl, refl, refl, refl)))
      | inr (other, there) ↦
          let touched = touch-Stays env.now id other there (v.own_id id other there) in
          rw (there, handle_data)
            (elim (Option-cases (destination_addr other from)) [
              | inl stranger ↦ rw (stranger, forward_packet) touched
              | inr (to, peer) ↦
                  rw (peer, forward_packet)
                    (same-Stays k s (write_packet-SameMaps env packet to _) touched)
            ])
    ]

    ping-Stays :
        (env : Env) (id : Bytes) (from : UdpAddr) → Stays k s (handle_ping env id from srv).server
    unfolding handle_ping get_session_by_id
    ping-Stays env id from = elim (Option-cases (lookup id srv.sessions)) [
      | inl gone ↦ rw (gone, handle_ping) (inr (s, found, (refl, refl, refl, refl)))
      | inr (other, there) ↦
          rw (there, handle_ping)
            (same-Stays k s (send_packet-SameMaps env packet_type_ping other.id pong from _)
              (touch-Stays env.now id other there (v.own_id id other there)))
    ]

    disconnect-Stays : (id : Bytes) → Stays k s (handle_disconnect id srv).server
    unfolding handle_disconnect get_session_by_id
    disconnect-Stays id = elim (Option-cases (lookup id srv.sessions)) [
      | inl gone ↦ rw (gone, handle_disconnect) (inr (s, found, (refl, refl, refl, refl)))
      | inr (other, there) ↦ rw (there, handle_disconnect) (remove-Stays other.id)
    ]

-- In a consistent state, and if a new session gets an id not in use, no packet, from whomever, puts another address into a session that has both peers: afterwards the
-- session is gone, or it has the same peers, token and id.
pub handle_packet-Stays :
    (env : Env) (packet : Bytes) (from : UdpAddr) (srv : RelayServer) (k : Bytes) (s : Session)
    → Consistent srv
    → Fresh env srv
    → lookup k srv.sessions ≡ some s
    → is_some s.peer_b ≡ true
    → Stays k s (handle_packet env packet from srv).server
handle_packet-Stays env packet from srv k s v fresh found has_b =
    let id = take 16 (drop 1 packet) in
    handle_packet_cases (λ o. Stays k s o.server) env packet from srv
      (λ e. inr (s, found, (refl, refl, refl, refl)))
      (connect-Stays k s srv found v has_b env (drop 17 packet) from fresh)
      (data-Stays k s srv found v has_b env id packet from)
      (ping-Stays k s srv found v has_b env id from) (disconnect-Stays k s srv found v has_b id)
