-- ===== src/Api/Devices.antt =====
-- The handlers of server/internal/api/member_handler.go that a device calls with its token.
use vpn_cloude.Base.{
  ℕ, Bool, not, ◌&&◌, Option, none, some, List, [], if◌then◌else◌, drop, Bytes, bytes_equal, codes,
}
use vpn_cloude.Base.Select.{keep}
use vpn_cloude.Stdlib.Text.{is_empty, trim_space, has_prefix}
use vpn_cloude.Stdlib.Ip.{V6Text}
use vpn_cloude.Store.{
  Network, Row, Peer, Database, DbError, Answer, answer, fault, not_found, ip_conflict, failed,
}
use vpn_cloude.Store.Networks.{get_network}
use vpn_cloude.Store.Queries.{get_peer_by_member_token, get_online_peers}
use vpn_cloude.Store.Updates.{PeerStatusUpdate, update_peer_status}
use vpn_cloude.Api.{Reply, refused, success, Checked, refuse, pass, hide_tokens}
use vpn_cloude.Api.Members.{approved, done_reply}

-- The token in the text of the Authorization header.
unfoldable pub read_bearer_token : Bytes → Bytes
read_bearer_token header =
    let text = trim_space header in
    trim_space (if has_prefix (codes "Bearer ") text then drop 7 text else text)

abbrev pub invalid_token_status : DbError → ℕ
invalid_token_status not_found = 401
invalid_token_status ip_conflict = 500
invalid_token_status failed = 500

unfoldable pub matching_member : Bytes → Answer Peer → Checked Peer
matching_member id (fault e) = refuse (invalid_token_status e)
matching_member id (answer peer) = if bytes_equal peer.id id then pass peer else refuse 403

-- The peer with the token, with the status of `writeMemberAuthError` for an error.
unfoldable pub authenticate_member : V6Text → Bool → Bytes → Bytes → List Row → Checked Peer
authenticate_member v6 down member_id token rows =
    if is_empty (trim_space token)
    then refuse 401
    else matching_member (trim_space member_id)
        (get_peer_by_member_token v6 down (trim_space token) rows)

-- The guard on the status of a device.
unfoldable pub approved_only : Checked Peer → Checked Peer
approved_only (refuse status) = refuse status
approved_only (pass peer) = if bytes_equal peer.status approved then pass peer else refuse 409

-- The guards of the handlers that only an approved device may call.
abbrev pub approved_device : V6Text → Bool → Bytes → Bytes → List Row → Checked Peer
approved_device v6 down member_id header rows =
    approved_only (authenticate_member v6 down member_id (read_bearer_token header) rows)

pub record MemberState : Type 0 where
  pub status : Bytes
  pub member_id : Bytes
  pub network_id : Bytes
  pub network_name : Bytes
  pub network_cidr : Bytes
  pub virtual_ip : Option Bytes

-- The address, of a device that is approved and has one.
abbrev pub assigned_ip : Peer → Option Bytes
assigned_ip peer =
    if bytes_equal peer.status approved
      && not (is_empty peer.virtual_ip)
      && not (bytes_equal peer.virtual_ip (codes "0.0.0.0"))
    then some peer.virtual_ip
    else none

unfoldable pub state_of : Peer → Answer Network → Reply MemberState
state_of peer (fault e) = refused 500
state_of peer (answer network) = success 200 (record {
  status = peer.status;
  member_id = peer.id;
  network_id = network.network_id;
  network_name = network.name;
  network_cidr = network.cidr;
  virtual_ip = assigned_ip peer;
})

unfoldable pub status_checked : Bool → List Network → Checked Peer → Reply MemberState
status_checked down networks (refuse status) = refused status
status_checked down networks (pass peer) = state_of peer (get_network down peer.network_id networks)

unfoldable pub member_status : V6Text → (ℕ → Bool) → Bytes → Bytes → Database → Reply MemberState
member_status v6 down member_id header db =
    status_checked (down 1) db.networks
      (authenticate_member v6 (down 0) member_id (read_bearer_token header) db.peers)

-- The status that a heartbeat reports.
abbrev pub reported_status : PeerStatusUpdate → PeerStatusUpdate
reported_status req = record req {
  public_endpoint = trim_space req.public_endpoint;
  relay_id = trim_space req.relay_id;
}

-- The status that an announcement reports: only the endpoints of the request.
abbrev pub announced_status : PeerStatusUpdate → PeerStatusUpdate
announced_status req = record {
  public_endpoint = trim_space req.public_endpoint;
  local_endpoints = req.local_endpoints;
  vnc_available = Bool.false;
  rx_bytes = 0;
  tx_bytes = 0;
  relay_id = [];
}

-- The update of a device that passed the guards, if the body of the request was read.
unfoldable pub update_checked :
    V6Text
    → ℕ
    → Bool
    → Bytes
    → (PeerStatusUpdate → PeerStatusUpdate)
    → List Row
    → Option PeerStatusUpdate
    → Checked Peer
    → Reply Bytes × List Row
update_checked v6 now down word status rows body (refuse code) = (refused code, rows)
update_checked v6 now down word status rows none (pass peer) = (refused 400, rows)
update_checked v6 now down word status rows (some req) (pass peer) =
    done_reply word (update_peer_status v6 now down peer.id (status req) rows)

unfoldable pub member_heartbeat :
    V6Text
    → ℕ
    → (ℕ → Bool)
    → Bytes
    → Bytes
    → Option PeerStatusUpdate
    → Database
    → Reply Bytes × List Row
member_heartbeat v6 now down member_id header body db =
    update_checked v6 now (down 1) (codes "updated") reported_status db.peers body
      (approved_device v6 (down 0) member_id header db.peers)

unfoldable pub member_announce :
    V6Text
    → ℕ
    → (ℕ → Bool)
    → Bytes
    → Bytes
    → Option PeerStatusUpdate
    → Database
    → Reply Bytes × List Row
member_announce v6 now down member_id header body db =
    update_checked v6 now (down 1) (codes "announced") announced_status db.peers body
      (approved_device v6 (down 0) member_id header db.peers)

-- The loop of `MemberPeers`.
unfoldable pub other_approved : Bytes → List Peer → List Peer
other_approved id peers = hide_tokens (
    keep (λ candidate. not (bytes_equal candidate.id id) && bytes_equal candidate.status approved)
      peers)

unfoldable pub peers_listed : Bytes → Answer (List Peer) → Reply (List Peer)
peers_listed id (fault e) = refused 500
peers_listed id (answer peers) = success 200 (other_approved id peers)

unfoldable pub peers_checked : V6Text → Bool → Database → Checked Peer → Reply (List Peer)
peers_checked v6 down db (refuse status) = refused status
peers_checked v6 down db (pass peer) =
    peers_listed peer.id (get_online_peers v6 down db.networks peer.network_id db.peers)

unfoldable pub member_peers : V6Text → (ℕ → Bool) → Bytes → Bytes → Database → Reply (List Peer)
member_peers v6 down member_id header db =
    peers_checked v6 (down 1) db (approved_device v6 (down 0) member_id header db.peers)
