-- ===== src/Api/Agents.antt =====
-- ListPeers, UnregisterPeer and Heartbeat of server/internal/api/peer_handler.go.
use vpn_cloude.Base.{ℕ, Bool, Option, none, some, List, if◌then◌else◌, Bytes, codes}
use vpn_cloude.Stdlib.Text.{is_empty, trim_space}
use vpn_cloude.Stdlib.Ip.{V6Text}
use vpn_cloude.Store.{
  Network, Row, Peer, Database, DbError, Answer, answer, fault, not_found, ip_conflict, failed,
}
use vpn_cloude.Store.Queries.{list_network_peers}
use vpn_cloude.Store.Updates.{PeerStatusUpdate, update_peer_status, delete_peer_by_machine_id}
use vpn_cloude.Api.{Reply, refused, success, Checked, refuse, pass, user_network, checked_member}
use vpn_cloude.Api.Members.{done_reply}
use vpn_cloude.Api.Devices.{reported_status}

unfoldable pub listed_peers : Answer (List Peer) → Reply (List Peer)
listed_peers (fault e) = refused 500
listed_peers (answer peers) = success 200 peers

unfoldable pub list_peers_checked : V6Text → Bool → Database → Checked Network → Reply (List Peer)
list_peers_checked v6 down db (refuse status) = refused status
list_peers_checked v6 down db (pass network) =
    listed_peers (list_network_peers v6 down db.networks network.id db.peers)

unfoldable pub list_peers :
    V6Text → (ℕ → Bool) → Option Bytes → Bytes → Database → Reply (List Peer)
list_peers v6 down user id db =
    list_peers_checked v6 (down 1) db (user_network (down 0) user id db.networks)

-- A machine that is not there is a success too.
unfoldable pub unregistered_reply : Option DbError × List Row → Reply Bytes × List Row
unregistered_reply (none, rows) = (success 200 (codes "unregistered"), rows)
unregistered_reply (some not_found, rows) = (success 200 (codes "already_removed"), rows)
unregistered_reply (some ip_conflict, rows) = (refused 500, rows)
unregistered_reply (some failed, rows) = (refused 500, rows)

unfoldable pub unregister_checked :
    Bool → Database → Option Bytes → Checked Network → Reply Bytes × List Row
unregister_checked down db body (refuse status) = (refused status, db.peers)
unregister_checked down db none (pass network) = (refused 400, db.peers)
unregister_checked down db (some machine_id) (pass network) =
    if is_empty (trim_space machine_id)
    then (refused 400, db.peers)
    else unregistered_reply
        (delete_peer_by_machine_id down db.networks network.id (trim_space machine_id) db.peers)

unfoldable pub unregister_peer :
    (ℕ → Bool) → Option Bytes → Bytes → Option Bytes → Database → Reply Bytes × List Row
unregister_peer down user id body db =
    unregister_checked (down 1) db body (user_network (down 0) user id db.networks)

unfoldable pub heartbeat_checked :
    V6Text
    → ℕ
    → Bool
    → Bytes
    → List Row
    → Option PeerStatusUpdate
    → Checked (Network × Peer)
    → Reply Bytes × List Row
heartbeat_checked v6 now down id rows body (refuse status) = (refused status, rows)
heartbeat_checked v6 now down id rows none (pass member) = (refused 400, rows)
heartbeat_checked v6 now down id rows (some req) (pass member) =
    done_reply (codes "updated") (update_peer_status v6 now down id (reported_status req) rows)

unfoldable pub heartbeat :
    V6Text
    → ℕ
    → (ℕ → Bool)
    → Option Bytes
    → Bytes
    → Bytes
    → Option PeerStatusUpdate
    → Database
    → Reply Bytes × List Row
heartbeat v6 now down user id peer_id body db =
    heartbeat_checked v6 now (down 2) peer_id db.peers body
      (checked_member v6 (down 1) peer_id db.peers (user_network (down 0) user id db.networks))
