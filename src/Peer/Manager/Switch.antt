-- ===== src/Peer/Manager/Switch.antt =====
-- ForceRelay and AttemptDirect of client/internal/peer/manager.go.
use vpn_cloude.Base.{
  true, ◌&&◌, Option, none, some, List, [], ◌∷◌, if◌then◌else◌, Bytes, bytes_equal, ◌≡◌,
  Option-cases, inl, inr, ◌⊎◌, ◌++◌, Bool-cases, arith,
}
use vpn_cloude.Base.Assoc.{lookup, insert}
use vpn_cloude.Stdlib.Text.{is_empty}
use vpn_cloude.Peer.Endpoint.{PeerInfo, Via, p2p, relay, prefer_ipv4}
use vpn_cloude.Peer.Manager.Relay.{resolve_relay_endpoint, resolve_relay_endpoint-IsUsable}
use vpn_cloude.Peer.Endpoint.Chosen.{IsUsable}
use vpn_cloude.Peer.Manager.{
  PeerConnection, World, Manager, call, update_peer_endpoint, PeerError, not_connected, no_relay,
  update_failed, peer_not_found, no_direct_endpoint, fetch_failed,
}

-- The endpoint of a connection that is there is written.
pub set_endpoint : World → Bytes → Bytes → Via → Manager → Manager
set_endpoint w id endpoint via m = elim (lookup id m.peers) [
  | none ↦ m
  | some conn ↦ record m {
    peers =
        insert id (record conn { endpoint = endpoint; connected_via = via; last_seen = w.now })
          m.peers;
  }
]

-- A new endpoint is asked of the tunnel and, if it takes it, written.
unfoldable pub move_peer :
    World → Bytes → PeerConnection → Bytes → Via → Manager → Option PeerError × Manager
move_peer w id conn endpoint via m =
    let asked = call (update_peer_endpoint conn.public_key endpoint) m in
    if w.update_ok conn.public_key endpoint
    then (none, set_endpoint w id endpoint via asked)
    else (some update_failed, asked)

unfoldable pub force_relay : World → Bytes → Manager → Option PeerError × Manager
force_relay w id m = elim (lookup id m.peers) [
  | none ↦ (some not_connected, m)
  | some conn ↦ elim (resolve_relay_endpoint w.env w.api w.local_peer_id id) [
    | none ↦ (some no_relay, m)
    | some endpoint ↦ move_peer w id conn endpoint relay m
  ]
]

pub find_peer : Bytes → List PeerInfo → Option PeerInfo
find_peer id [] = none
find_peer id (peer ∷ peers) =
    let rest = find_peer id peers in if bytes_equal peer.id id then some peer else rest

pub attempt_direct : World → Bytes → Manager → Option PeerError × Manager
attempt_direct w id m = if w.tunnel_there && w.wg_ready then (none, m) else (elim w.fetched [
  | none ↦ (some fetch_failed, m)
  | some listed ↦ elim (find_peer id listed) [
    | none ↦ (some peer_not_found, m)
    | some target ↦
        let endpoint = prefer_ipv4 w.env target.public_endpoint target.local_endpoints w.tun_cidr in
        if is_empty endpoint then (some no_direct_endpoint, m) else (elim (lookup id m.peers) [
          | none ↦ (some not_connected, m)
          | some conn ↦ move_peer w id conn endpoint p2p m
        ])
  ]
])

-- The connection of a peer after it was moved to an endpoint of the relay.
abbrev pub relayed : World → Bytes → PeerConnection → PeerConnection
relayed w endpoint conn = record conn {
  endpoint = endpoint;
  connected_via = relay;
  last_seen = w.now;
}

-- The endpoint that the relay assigned to this machine for the peer is usable, the tunnel was asked once to use it
-- for the key of the peer and took it, and it is written to the connection of the peer and to no other.
pub record IsForced (w : World) (id : Bytes) (before after : Manager) : Type 0 where
  pub conn : PeerConnection
  pub there : lookup id before.peers ≡ some conn
  pub endpoint : Bytes
  pub resolved : resolve_relay_endpoint w.env w.api w.local_peer_id id ≡ some endpoint
  pub usable : IsUsable w.env.v6 endpoint
  pub taken : w.update_ok conn.public_key endpoint ≡ true
  pub calls : after.calls ≡ before.calls ++ (update_peer_endpoint conn.public_key endpoint ∷ [])
  pub peers : after.peers ≡ insert id (relayed w endpoint conn) before.peers

-- If ForceRelay fails, the connections are as they were. If it succeeds, the endpoint that the relay assigned to
-- this machine for the peer has a host that is not internal and a port from 1 to 65535, the tunnel was asked once
-- to use it for the peer and took it, and only the connection of the peer changes: it has this endpoint and goes
-- by the relay.
pub force_relay_lem :
    (w : World) (id : Bytes) (m : Manager)
    → ((e : PeerError) × ((force_relay w id m).0 ≡ some e)
        × ((force_relay w id m).1.peers ≡ m.peers))
      ⊎ (((force_relay w id m).0 ≡ none) × IsForced w id m (force_relay w id m).1)
unfolding force_relay move_peer set_endpoint
force_relay_lem w id m = elim (Option-cases (lookup id m.peers)) [
  | inl absent ↦ inl (not_connected, ground (arith, absent), ground (arith, absent))
  | inr (conn, found) ↦
      elim (Option-cases (resolve_relay_endpoint w.env w.api w.local_peer_id id)) [
        | inl unresolved ↦
            inl (no_relay, ground (arith, found, unresolved), ground (arith, found, unresolved))
        | inr (endpoint, resolved) ↦ elim (Bool-cases (w.update_ok conn.public_key endpoint)) [
          | inr turned_down ↦ inl (
            update_failed,
            ground (arith, found, resolved, turned_down),
            ground (arith, found, resolved, turned_down),
          )
          | inl taken ↦ inr (
            ground (arith, found, resolved, taken),
            record {
              conn = conn;
              there = found;
              endpoint = endpoint;
              resolved = resolved;
              usable =
                  resolve_relay_endpoint-IsUsable w.env w.api w.local_peer_id id endpoint resolved;
              taken = taken;
              calls = ground (arith, found, resolved, taken);
              peers = ground (arith, found, resolved, taken);
            },
          )
        ]
      ]
]
