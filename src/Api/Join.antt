-- ===== src/Api/Join.antt =====
-- The handler of server/internal/api/join_handler.go.
pub mod Manual
use vpn_cloude.Base.{
  ℕ, Bool, not, ◌&&◌, Option, none, some, List, [], ◌∷◌, ◌++◌, ltb, ◌||◌, if◌then◌else◌, length,
  take, Bytes, bytes_equal, codes,
}
use vpn_cloude.Stdlib.Text.{is_empty, trim_space}
use vpn_cloude.Stdlib.Ip.{V6Text}
use vpn_cloude.Store.{
  Network, Row, Peer, Database, DbError, Answer, answer, fault, not_found, ip_conflict, failed,
}
use vpn_cloude.Store.Networks.{get_network_by_public_id}
use vpn_cloude.Store.Register.{Moment, register_peer, register_pending_peer}
use vpn_cloude.Store.Queries.{get_peer_by_public_key, list_network_peers}
use vpn_cloude.Api.{Reply, refused, success, missing_status, used_ips, coordinator_ip}
use vpn_cloude.Api.Members.{approved}

pub record JoinRequest : Type 0 where
  pub network_id : Bytes
  pub hostname : Bytes
  pub wg_public_key : Bytes
  pub os : Bytes
  pub arch : Bytes

-- The reply, less the message for the user.
pub record JoinResponse : Type 0 where
  pub member_id : Bytes
  pub member_token : Bytes
  pub status : Bytes
  pub virtual_ip : Bytes
  pub network_cidr : Bytes
  pub network_name : Bytes

abbrev pub text_or : Bytes → Bytes → Bytes
text_or default s = if is_empty s then default else s

-- The fields of the request, trimmed and with their defaults; `goos` and `goarch` are those of the build.
unfoldable pub clean_request : Bytes → Bytes → JoinRequest → JoinRequest
clean_request goos goarch req = record {
  network_id = trim_space req.network_id;
  hostname = text_or (codes "unknown-device") (trim_space req.hostname);
  wg_public_key = trim_space req.wg_public_key;
  os = text_or goos (trim_space req.os);
  arch = text_or goarch (trim_space req.arch);
}

-- A device that joined before gets its state.
unfoldable pub rejoin : Network → Peer → JoinResponse
rejoin network existing = record {
  member_id = existing.id;
  member_token = existing.member_token;
  status = existing.status;
  virtual_ip = if bytes_equal existing.status approved then existing.virtual_ip else [];
  network_cidr = network.cidr;
  network_name = network.name;
}

-- The peer that a request stands for, with its address and its status.
unfoldable pub new_peer : Network → JoinRequest → Bytes → Bytes → Peer
new_peer network req virtual_ip status = record {
  id = [];
  network_id = network.id;
  name = req.hostname;
  machine_id = codes "join_" ++ take 12 req.wg_public_key;
  public_key = req.wg_public_key;
  virtual_ip = virtual_ip;
  public_endpoint = [];
  local_endpoints = [];
  os = req.os;
  version = req.arch;
  is_online = Bool.false;
  last_seen = 0;
  last_handshake = 0;
  rx_bytes = 0;
  tx_bytes = 0;
  vnc_port = 5900;
  vnc_available = Bool.false;
  relay_id = [];
  status = status;
  member_token = [];
  created_at = 0;
}

unfoldable pub joined :
    Network → Bytes → Bytes → Answer Peer × List Row → Reply JoinResponse × List Row
joined network status virtual_ip (fault e, rows) = (refused 500, rows)
joined network status virtual_ip (answer peer, rows) = (
  success 201 (record {
    member_id = peer.id;
    member_token = peer.member_token;
    status = status;
    virtual_ip = virtual_ip;
    network_cidr = network.cidr;
    network_name = network.name;
  }),
  rows,
)

unfoldable pub join_at :
    V6Text
    → Moment
    → Bool
    → Network
    → JoinRequest
    → List Row
    → Option Bytes
    → Reply JoinResponse × List Row
join_at v6 m down network req rows none = (refused 409, rows)
join_at v6 m down network req rows (some ip) =
    joined network approved ip (register_peer v6 m down (new_peer network req ip approved) rows)

-- A network with automatic approval.
unfoldable pub join_beside :
    V6Text
    → Moment
    → Bool
    → Network
    → JoinRequest
    → List Row
    → Answer (List Peer)
    → Reply JoinResponse × List Row
join_beside v6 m down network req rows (fault e) = (refused 500, rows)
join_beside v6 m down network req rows (answer current) =
    join_at v6 m down network req rows (coordinator_ip v6 network.cidr (used_ips current))

-- A device that is new to the network. The slice of a key of less than 12 bytes panics, and the router answers
-- 500.
unfoldable pub join_new :
    V6Text → Moment → (ℕ → Bool) → Network → JoinRequest → Database → Reply JoinResponse × List Row
join_new v6 m down network req db =
    if ltb (length req.wg_public_key) 12
    then (refused 500, db.peers)
    else if bytes_equal network.access_control (codes "auto")
    then join_beside v6 m (down 3) network req db.peers
        (list_network_peers v6 (down 2) db.networks network.id db.peers)
    else joined network (codes "pending") []
        (register_pending_peer v6 m (down 2) (new_peer network req [] (codes "pending")) db.peers)

-- A failure to look for the device is taken as if it was not there.
unfoldable pub join_known :
    V6Text
    → Moment
    → (ℕ → Bool)
    → Network
    → JoinRequest
    → Database
    → Answer Peer
    → Reply JoinResponse × List Row
join_known v6 m down network req db (answer existing) =
    (success 200 (rejoin network existing), db.peers)
join_known v6 m down network req db (fault e) = join_new v6 m down network req db

unfoldable pub join_network :
    V6Text
    → Moment
    → (ℕ → Bool)
    → JoinRequest
    → Database
    → Answer Network
    → Reply JoinResponse × List Row
join_network v6 m down req db (fault e) = (refused (missing_status e), db.peers)
join_network v6 m down req db (answer network) =
    if not network.is_active
    then (refused 404, db.peers)
    else join_known v6 m down network req db
        (get_peer_by_public_key v6 (down 1) network.id req.wg_public_key db.peers)

unfoldable pub join_clean :
    V6Text → Moment → (ℕ → Bool) → JoinRequest → Database → Reply JoinResponse × List Row
join_clean v6 m down req db =
    if is_empty req.network_id || is_empty req.wg_public_key
    then (refused 400, db.peers)
    else join_network v6 m down req db
        (get_network_by_public_id (down 0) req.network_id db.networks)

-- `Join`, with the body of the request if it was read.
unfoldable pub join :
    V6Text
    → Bytes
    → Bytes
    → Moment
    → (ℕ → Bool)
    → Option JoinRequest
    → Database
    → Reply JoinResponse × List Row
join v6 goos goarch m down none db = (refused 400, db.peers)
join v6 goos goarch m down (some req) db = join_clean v6 m down (clean_request goos goarch req) db
