-- ===== src/Peer/Manager/Sync.antt =====
-- What a sync does to the set of connections.
use vpn_cloude.Base.{
  ◌≡◌, refl, Bool, true, false, not, ◌&&◌, Option, none, some, List, [], ◌∷◌, Bytes, bytes_equal,
  bytes_equal_iff, if◌then◌else◌, arith,
}
use vpn_cloude.Base.Assoc.{lookup, lookup-delete}
use vpn_cloude.Peer.Endpoint.{PeerInfo}
use vpn_cloude.Peer.Manager.{
  PeerConnection, World, Manager, sync_each, is_observed, disconnect_peer, drop_unobserved,
  sync_fetched, sync_peers_once, disconnect_each, stop,
}

disconnect_peer_lem :
    (id j : Bytes) (m : Manager)
    → lookup j (disconnect_peer id m).peers ≡ (if bytes_equal id j then none else lookup j m.peers)
unfolding disconnect_peer
disconnect_peer_lem id j m = ground (arith, lookup-delete id j m.peers, bytes_equal_iff id j)

abbrev pub there : List (Bytes × PeerConnection) → Bytes → Bool
there entries j = elim (lookup j entries) [ none ↦ false | some conn ↦ true ]

pub drop_unobserved_lem :
    (w : World) (listed : List PeerInfo) (entries : List (Bytes × PeerConnection)) (j : Bytes)
    (m : Manager)
    → lookup j (drop_unobserved w listed entries m).peers
      ≡ (if not (is_observed w j listed) && there entries j then none else lookup j m.peers)
unfolding drop_unobserved lookup
drop_unobserved_lem w listed [] j m = ground arith
drop_unobserved_lem w listed ((id, conn) ∷ rest) j m =
    let m' = if is_observed w id listed then m else disconnect_peer id m in
    ground (
      arith,
      drop_unobserved_lem w listed rest j m',
      disconnect_peer_lem id j m,
      bytes_equal_iff id j,
    )

sync_fetched-observed :
    (w : World) (client : Option Bytes) (fetched : Option (List PeerInfo)) (m : Manager)
    (id : Bytes) (conn : PeerConnection)
    → (sync_fetched w client fetched m).0 ≡ none
    → lookup id (sync_fetched w client fetched m).1.peers ≡ some conn
    → (listed : List PeerInfo) × (fetched ≡ some listed) × (is_observed w id listed ≡ true)
unfolding sync_fetched
sync_fetched-observed w none fetched m id conn success found = absurd (ground (arith, success))
sync_fetched-observed w (some host) none m id conn success found = absurd (ground (arith, success))
sync_fetched-observed w (some host) (some listed) m id conn success found =
    let synced = sync_each w listed m in
    (listed, refl, ground (arith, found, drop_unobserved_lem w listed synced.peers id synced))

-- After a sync that succeeds, every connection is to a peer of the list that the server sent, and neither to
-- this machine nor to a peer without an id.
pub sync_peers_once-observed :
    (w : World) (m : Manager) (id : Bytes) (conn : PeerConnection)
    → (sync_peers_once w m).0 ≡ none
    → lookup id (sync_peers_once w m).1.peers ≡ some conn
    → (listed : List PeerInfo) × (w.fetched ≡ some listed) × (is_observed w id listed ≡ true)
unfolding sync_peers_once
sync_peers_once-observed w m id conn success found =
    sync_fetched-observed w w.env.public_host w.fetched m id conn success found

disconnect_each_lem :
    (entries : List (Bytes × PeerConnection)) (j : Bytes) (m : Manager)
    → lookup j (disconnect_each entries m).peers
      ≡ (if there entries j then none else lookup j m.peers)
unfolding disconnect_each lookup
disconnect_each_lem [] j m = ground arith
disconnect_each_lem ((id, conn) ∷ rest) j m = ground (
  arith,
  disconnect_each_lem rest j (disconnect_peer id m),
  disconnect_peer_lem id j m,
  bytes_equal_iff id j,
)

-- After Stop no connection is left.
pub stop_lem : (m : Manager) (id : Bytes) → lookup id (stop m).peers ≡ none
unfolding stop
stop_lem m id = ground (arith, disconnect_each_lem m.peers id m)
