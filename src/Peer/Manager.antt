-- ===== src/Peer/Manager.antt =====
-- The connections of client/internal/peer/manager.go. One sync is one step: no other
-- operation of the manager runs in between.
pub mod Relay
pub mod Usable
pub mod Sync
pub mod Keep
pub mod Switch
mod Tests
use vpn_cloude.Base.{
  ℕ, ◌+◌, Bool, true, false, not, ◌&&◌, ◌||◌, Option, none, some, List, [], ◌∷◌, ◌++◌, ltb, ◌==◌,
  if◌then◌else◌, take, Bytes, bytes_equal, codes,
}
use vpn_cloude.Base.Assoc.{lookup, insert, delete}
use vpn_cloude.Stdlib.Text.{is_empty, trim_space, contains_byte}
use vpn_cloude.Peer.Endpoint.{
  Surroundings, PeerInfo, Via, p2p, lan, relay, nothing, normalize_public_endpoint,
  prefer_lan_endpoint, prefer_ipv4, sanitize_endpoint, select_direct_or_lan_endpoint,
}
use vpn_cloude.Peer.Manager.Relay.{Api, resolve_relay_endpoint}

pub record PeerConnection : Type 0 where
  pub peer_id : Bytes
  pub peer_name : Bytes
  pub public_key : Bytes
  pub virtual_ip : Bytes
  pub endpoint : Bytes
  pub connected_via : Via
  pub last_seen : ℕ

-- What the manager asks of the tunnel.
pub data TunnelCall : Type 0 where
  add_peer : Bytes → Bytes → Bytes → TunnelCall
  update_peer_endpoint : Bytes → Bytes → TunnelCall
  remove_peer : Bytes → TunnelCall

-- The fixed fields of the manager, and what one operation meets outside: the clock, the answers of the API,
-- and those of the tunnel.
pub record World : Type 0 where
  pub env : Surroundings
  pub api : Api
  pub now : ℕ
  pub fetched : Option (List PeerInfo)
  pub tunnel_there : Bool
  pub wg_ready : Bool
  pub tun_cidr : Bytes
  pub local_peer_id : Bytes
  pub local_public_endpoint : Bytes
  pub add_ok : Bytes → Bytes → Bytes → Bool
  pub update_ok : Bytes → Bytes → Bool

-- The map of the connections, and the calls of the tunnel so far.
pub record Manager : Type 0 where
  pub peers : List (Bytes × PeerConnection)
  pub calls : List TunnelCall

pub data PeerError : Type 0 where
  no_tunnel no_client fetch_failed no_endpoint bad_endpoint no_virtual_ip add_failed : PeerError
  not_connected no_relay update_failed peer_not_found no_direct_endpoint : PeerError

abbrev pub call : TunnelCall → Manager → Manager
call c m = record m { calls = m.calls ++ (c ∷ []) }

abbrev pub Candidate : Type 0
Candidate = Bytes × Via

pub is_candidate : Bytes → List Candidate → Bool
is_candidate endpoint [] = false
is_candidate endpoint ((other, via) ∷ rest) =
    bytes_equal other endpoint || is_candidate endpoint rest

-- Neither an empty endpoint nor one that was seen.
pub add_candidate : World → Bytes → Via → List Candidate → List Candidate
add_candidate w raw via candidates =
    let endpoint = sanitize_endpoint w.env raw 51820 in
    if is_empty endpoint
    then candidates
    else if is_candidate endpoint candidates
    then candidates
    else candidates ++ ((endpoint, via) ∷ [])

-- The first candidate that the tunnel takes.
pub try_candidates : World → Bytes → Bytes → List Candidate → Manager → Option Candidate × Manager
try_candidates w key allowed_ip [] m = (none, m)
try_candidates w key allowed_ip ((endpoint, via) ∷ rest) m =
    let asked = call (add_peer key endpoint allowed_ip) m in
    let later = try_candidates w key allowed_ip rest asked in
    if w.add_ok key endpoint allowed_ip then (some (endpoint, via), asked) else later

pub fallback_candidates : World → PeerInfo → Bytes → Via → List Candidate
fallback_candidates w peer endpoint via =
    add_candidate w (prefer_lan_endpoint w.env peer.local_endpoints w.tun_cidr) lan (
      add_candidate w (normalize_public_endpoint w.env.v6 peer.public_endpoint) p2p
        (add_candidate w endpoint via []))

pub add_peer_with_fallback :
    World → PeerInfo → Bytes → Via → Bytes → Manager → Option Candidate × Manager
add_peer_with_fallback w peer endpoint via allowed_ip m =
    try_candidates w peer.public_key allowed_ip (fallback_candidates w peer endpoint via) m

-- The direct endpoint or that of the local network, else the relay.
pub select_endpoint : World → PeerInfo → Candidate
select_endpoint w peer =
    let (endpoint, via) =
      select_direct_or_lan_endpoint w.env w.tun_cidr w.local_public_endpoint peer in
    if not (is_empty endpoint)
    then (endpoint, via)
    else (elim (resolve_relay_endpoint w.env w.api w.local_peer_id peer.id) [
      | none ↦ (endpoint, via)
      | some relay_endpoint ↦ (relay_endpoint, relay)
    ])

abbrev pub with_prefix : Bytes → Bytes
with_prefix ip = if contains_byte 47 ip then ip else ip ++ codes "/32"

pub connection : World → PeerInfo → Candidate → PeerConnection
connection w peer (endpoint, via) = record {
  peer_id = peer.id;
  peer_name = peer.name;
  public_key = peer.public_key;
  virtual_ip = peer.virtual_ip;
  endpoint = endpoint;
  connected_via = via;
  last_seen = w.now;
}

-- The connection to the candidate that the tunnel took.
pub record_connection : World → PeerInfo → Option Candidate × Manager → Option PeerError × Manager
record_connection w peer (none, asked) = (some add_failed, asked)
record_connection w peer (some final, asked) =
    (none, record asked { peers = insert peer.id (connection w peer final) asked.peers })

pub connect_to_peer : World → PeerInfo → Manager → Option PeerError × Manager
connect_to_peer w peer m =
    let (selected, via) = select_endpoint w peer in
    let endpoint = sanitize_endpoint w.env selected 51820 in
    let allowed_ip = trim_space peer.virtual_ip in
    if not w.tunnel_there
    then (some no_tunnel, m)
    else if is_empty selected
    then (some no_endpoint, m)
    else if is_empty endpoint
    then (some bad_endpoint, m)
    else if is_empty allowed_ip
    then (some no_virtual_ip, m)
    else record_connection w peer
        (add_peer_with_fallback w peer endpoint via (with_prefix allowed_ip) m)

-- A connection that is there gets the endpoint of now; a failure of the tunnel is only printed.
pub refresh_peer : World → PeerInfo → PeerConnection → Manager → Manager
refresh_peer w peer existing m =
    let (selected, via) = select_endpoint w peer in
    let endpoint = sanitize_endpoint w.env selected 51820 in
    if not (is_empty endpoint) && not (bytes_equal endpoint existing.endpoint)
    then (let asked = call (update_peer_endpoint existing.public_key endpoint) m in
        record asked {
          peers =
              insert peer.id
                (record existing { endpoint = endpoint; connected_via = via; last_seen = w.now })
                asked.peers;
        })
    else record m { peers = insert peer.id (record existing { last_seen = w.now }) m.peers }

abbrev pub is_listed : World → PeerInfo → Bool
is_listed w peer = not (is_empty peer.id || bytes_equal peer.id w.local_peer_id)

-- The body of the loop of `syncPeersOnce`.
pub sync_peer : World → PeerInfo → Manager → Manager
sync_peer w peer m = if not (is_listed w peer) then m else (elim (lookup peer.id m.peers) [
  | none ↦ (connect_to_peer w peer m).1
  | some existing ↦ refresh_peer w peer existing m
])

pub sync_each : World → List PeerInfo → Manager → Manager
sync_each w [] m = m
sync_each w (peer ∷ peers) m = sync_each w peers (sync_peer w peer m)

pub is_observed : World → Bytes → List PeerInfo → Bool
is_observed w id [] = false
is_observed w id (peer ∷ peers) =
    (is_listed w peer && bytes_equal peer.id id) || is_observed w id peers

pub disconnect_peer : Bytes → Manager → Manager
disconnect_peer id m = elim (lookup id m.peers) [
  | none ↦ m
  | some conn ↦
      let asked = if is_empty conn.public_key then m else call (remove_peer conn.public_key) m in
      record asked { peers = delete id asked.peers }
]

-- The last loop of `syncPeersOnce`, over the connections that were there before it.
pub drop_unobserved : World → List PeerInfo → List (Bytes × PeerConnection) → Manager → Manager
drop_unobserved w listed [] m = m
drop_unobserved w listed ((id, conn) ∷ rest) m =
    drop_unobserved w listed rest (if is_observed w id listed then m else disconnect_peer id m)

-- `syncPeersOnce` with the client, if there is one, and the list that it fetched, if it could.
pub sync_fetched :
    World → Option Bytes → Option (List PeerInfo) → Manager → Option PeerError × Manager
sync_fetched w none fetched m = (some no_client, m)
sync_fetched w (some host) none m = (some fetch_failed, m)
sync_fetched w (some host) (some listed) m =
    let synced = sync_each w listed m in (none, drop_unobserved w listed synced.peers synced)

pub sync_peers_once : World → Manager → Option PeerError × Manager
sync_peers_once w m = sync_fetched w w.env.public_host w.fetched m

pub disconnect_each : List (Bytes × PeerConnection) → Manager → Manager
disconnect_each [] m = m
disconnect_each ((id, conn) ∷ rest) m = disconnect_each rest (disconnect_peer id m)

-- `Stop`, after the loop has ended.
pub stop : Manager → Manager
stop m = disconnect_each m.peers m
