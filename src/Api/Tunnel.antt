-- ===== src/Api/Tunnel.antt =====
-- The handlers of server/internal/api/member_tunnel_handler.go. Redis is a parameter: what its commands return
-- for the keys of a network, and the command that a handler sends.
use vpn_cloude.Base.{
  ℕ, Bool, not, ◌&&◌, Option, none, some, List, [], ◌∷◌, if◌then◌else◌, Bytes, bytes_equal, codes,
}
use vpn_cloude.Base.Select.{keep}
use vpn_cloude.Stdlib.Text.{is_empty, trim_space}
use vpn_cloude.Stdlib.Ip.{V6Text}
use vpn_cloude.Store.{Row, Peer, Database, DbError, Answer, answer, fault}
use vpn_cloude.Store.Queries.{get_peer_by_member_token, get_online_peers}
use vpn_cloude.Store.Updates.{PeerStatusUpdate, update_peer_status, mark_peer_offline}
use vpn_cloude.Api.{Reply, refused, success, Checked, refuse, pass, hide_tokens}
use vpn_cloude.Api.Devices.{read_bearer_token}

pub record CoordEntry : Type 0 where
  pub peer_id : Bytes
  pub network_id : Bytes
  pub public_endpoint : Bytes
  pub local_endpoints : List Bytes

-- What a handler sends to Redis: the entry of a peer for 60 seconds, or its removal.
pub data CacheCommand : Type 0 where
  put_entry : CoordEntry → CacheCommand
  delete_entry : Bytes → Bytes → CacheCommand

unfoldable pub token_owner : Bytes → Answer Peer → Checked Peer
token_owner member_id (fault e) = refuse 401
token_owner member_id (answer peer) =
    if not (is_empty member_id) && not (bytes_equal peer.id member_id)
    then refuse 403
    else pass peer

unfoldable pub auth_member : V6Text → Bool → Bytes → Bytes → List Row → Checked Peer
auth_member v6 down id header rows =
    let token = read_bearer_token header in
    if is_empty token
    then refuse 401
    else token_owner (trim_space id) (get_peer_by_member_token v6 down token rows)

abbrev pub tunnel_status : PeerStatusUpdate → PeerStatusUpdate
tunnel_status req = record req { public_endpoint = trim_space req.public_endpoint; relay_id = [] }

unfoldable pub tunnel_updated : Option DbError × List Row → Reply Bytes × List Row
tunnel_updated (some e, rows) = (refused 500, rows)
tunnel_updated (none, rows) = (success 200 (codes "ok"), rows)

unfoldable pub tunnel_heartbeat_checked :
    V6Text → ℕ → Bool → Option PeerStatusUpdate → List Row → Checked Peer → Reply Bytes × List Row
tunnel_heartbeat_checked v6 now down body rows (refuse status) = (refused status, rows)
tunnel_heartbeat_checked v6 now down none rows (pass peer) = (refused 400, rows)
tunnel_heartbeat_checked v6 now down (some req) rows (pass peer) =
    tunnel_updated (update_peer_status v6 now down peer.id (tunnel_status req) rows)

unfoldable pub tunnel_heartbeat :
    V6Text
    → ℕ
    → (ℕ → Bool)
    → Bytes
    → Bytes
    → Option PeerStatusUpdate
    → List Row
    → Reply Bytes × List Row
tunnel_heartbeat v6 now down id header body rows =
    tunnel_heartbeat_checked v6 now (down 1) body rows (auth_member v6 (down 0) id header rows)

-- A peer with the endpoints of an entry, where the entry has them.
abbrev pub with_entry : CoordEntry → Peer → Peer
with_entry entry peer = record peer {
  public_endpoint =
      if is_empty entry.public_endpoint then peer.public_endpoint else entry.public_endpoint;
  local_endpoints = elim entry.local_endpoints [ [] ↦ peer.local_endpoints | e ∷ es ↦ e ∷ es ];
}

unfoldable pub merge_entry : CoordEntry → List Peer → List Peer
merge_entry entry [] = []
merge_entry entry (peer ∷ peers) =
    (if bytes_equal peer.id entry.peer_id then with_entry entry peer else peer)
    ∷ merge_entry entry peers

unfoldable pub merge_entries : List CoordEntry → List Peer → List Peer
merge_entries [] peers = peers
merge_entries (entry ∷ entries) peers = merge_entries entries (merge_entry entry peers)

-- The result, in an order that the code leaves to its map.
unfoldable pub tunnel_listed : Bytes → List CoordEntry → Answer (List Peer) → Reply (List Peer)
tunnel_listed id entries (fault e) = refused 500
tunnel_listed id entries (answer peers) =
    success 200
      (hide_tokens (keep (λ peer. not (bytes_equal peer.id id)) (merge_entries entries peers)))

unfoldable pub tunnel_peers_checked :
    V6Text → Bool → (Bytes → List CoordEntry) → Database → Checked Peer → Reply (List Peer)
tunnel_peers_checked v6 down announced db (refuse status) = refused status
tunnel_peers_checked v6 down announced db (pass peer) =
    tunnel_listed peer.id (announced peer.network_id)
      (get_online_peers v6 down db.networks peer.network_id db.peers)

-- `announced` gives the entries of a network that could be read.
unfoldable pub tunnel_peers :
    V6Text → (ℕ → Bool) → (Bytes → List CoordEntry) → Bytes → Bytes → Database → Reply (List Peer)
tunnel_peers v6 down announced id header db =
    tunnel_peers_checked v6 (down 1) announced db (auth_member v6 (down 0) id header db.peers)

pub record AnnounceBody : Type 0 where
  pub public_endpoint : Bytes
  pub local_endpoints : List Bytes

unfoldable pub tunnel_announce_checked :
    Bool → Option AnnounceBody → Checked Peer → Reply Bytes × List CacheCommand
tunnel_announce_checked redis body (refuse status) = (refused status, [])
tunnel_announce_checked redis none (pass peer) = (success 200 (codes "skipped"), [])
tunnel_announce_checked redis (some req) (pass peer) = (
  success 200 (codes "announced"),
  if redis && not (is_empty (trim_space req.public_endpoint))
      then put_entry (record {
        peer_id = peer.id;
        network_id = peer.network_id;
        public_endpoint = req.public_endpoint;
        local_endpoints = req.local_endpoints;
      })
        ∷ []
      else [],
)

-- `redis` says whether the server has a Redis client.
unfoldable pub tunnel_announce :
    V6Text
    → (ℕ → Bool)
    → Bool
    → Bytes
    → Bytes
    → Option AnnounceBody
    → List Row
    → Reply Bytes × List CacheCommand
tunnel_announce v6 down redis id header body rows =
    tunnel_announce_checked redis body (auth_member v6 (down 0) id header rows)

abbrev pub no_status : PeerStatusUpdate
no_status = record {
  public_endpoint = [];
  local_endpoints = [];
  vnc_available = Bool.false;
  rx_bytes = 0;
  tx_bytes = 0;
  relay_id = [];
}

-- Errors of either statement are only logged.
unfoldable pub tunnel_offline_checked :
    V6Text
    → ℕ
    → (ℕ → Bool)
    → Bool
    → List Row
    → Checked Peer
    → Reply Bytes × List Row × List CacheCommand
tunnel_offline_checked v6 now down redis rows (refuse status) = (refused status, rows, [])
tunnel_offline_checked v6 now down redis rows (pass peer) =
    let cleared = (update_peer_status v6 now (down 1) peer.id no_status rows).1 in
    (
      success 200 (codes "offline"),
      (mark_peer_offline v6 (down 2) peer.id cleared).1,
      if redis then delete_entry peer.network_id peer.id ∷ [] else [],
    )

unfoldable pub tunnel_offline :
    V6Text
    → ℕ
    → (ℕ → Bool)
    → Bool
    → Bytes
    → Bytes
    → List Row
    → Reply Bytes × List Row × List CacheCommand
tunnel_offline v6 now down redis id header rows =
    tunnel_offline_checked v6 now down redis rows (auth_member v6 (down 0) id header rows)
