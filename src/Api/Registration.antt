-- ===== src/Api/Registration.antt =====
-- Registration of a machine by server/internal/api/peer_handler.go. `others n` makes of the table what other
-- requests do to it before statement n; the mutex of the network keeps out only other registrations.
use vpn_cloude.Base.{
  ℕ, zero, suc, ◌+◌, Bool, not, ◌&&◌, ◌||◌, Option, none, some, List, [], ◌∷◌, ◌==◌, if◌then◌else◌,
  Bytes, bytes_equal,
}
use vpn_cloude.Base.Select.{any, keep}
use vpn_cloude.Stdlib.Text.{is_empty, trim_space}
use vpn_cloude.Stdlib.Ip.{V6Text, parse_ip}
use vpn_cloude.Store.{
  Network, Row, Peer, Answer, answer, fault, not_found, ip_conflict, failed, cidr_address,
  ipv4_text_or,
}
use vpn_cloude.Store.Register.{Moment, register_peer}
use vpn_cloude.Store.Queries.{list_network_peers}
use vpn_cloude.Api.{Reply, refused, success, Checked, refuse, pass, user_network, coordinator_ip}

pub record PeerRegisterRequest : Type 0 where
  pub machine_id : Bytes
  pub public_key : Bytes
  pub name : Bytes
  pub os : Bytes
  pub version : Bytes
  pub vnc_port : ℕ

pub record PeerRegistrationResponse : Type 0 where
  pub virtual_ip : Bytes
  pub network_cidr : Bytes
  pub peer_id : Bytes
  pub public_key : Bytes
  pub peers : List Peer

unfoldable pub normalize_peer_virtual_ipv4 : V6Text → Bytes → Bytes
normalize_peer_virtual_ipv4 v6 raw =
    let trimmed = trim_space raw in
    if is_empty trimmed then [] else (elim (parse_ip v6 trimmed) [
      | some ip ↦ ipv4_text_or v6 [] ip
      | none ↦ elim (cidr_address v6 trimmed) [ none ↦ [] | some ip ↦ ipv4_text_or v6 [] ip ]
    ])

-- The addresses in use, and that of the machine: the last of its rows counts.
unfoldable pub normalized_ips : V6Text → List Peer → List Bytes
normalized_ips v6 [] = []
normalized_ips v6 (peer ∷ peers) =
    let ip = normalize_peer_virtual_ipv4 v6 peer.virtual_ip in
    let rest = normalized_ips v6 peers in if is_empty ip then rest else ip ∷ rest

unfoldable pub machine_ip : V6Text → Bytes → Bytes → List Peer → Bytes
machine_ip v6 machine_id ip [] = ip
machine_ip v6 machine_id ip (peer ∷ peers) =
    machine_ip v6 machine_id
      (if bytes_equal peer.machine_id machine_id
        then normalize_peer_virtual_ipv4 v6 peer.virtual_ip
        else ip)
      peers

abbrev pub holds_ip : V6Text → Bytes → Bytes → Peer → Bool
holds_ip v6 machine_id ip peer =
    not (bytes_equal peer.machine_id machine_id)
    && bytes_equal (normalize_peer_virtual_ipv4 v6 peer.virtual_ip) ip

-- The machine keeps its address unless another one has it; else it gets a new one.
unfoldable pub choose_ip : V6Text → Bytes → Bytes → List Peer → Option Bytes
choose_ip v6 cidr machine_id current =
    let ip = machine_ip v6 machine_id [] current in
    if is_empty ip || any (holds_ip v6 machine_id ip) current
    then coordinator_ip v6 cidr (normalized_ips v6 current)
    else some ip

unfoldable pub registration : Network → PeerRegisterRequest → Bytes → Peer
registration network req virtual_ip = record {
  id = [];
  network_id = network.id;
  name = req.name;
  machine_id = req.machine_id;
  public_key = req.public_key;
  virtual_ip = virtual_ip;
  public_endpoint = [];
  local_endpoints = [];
  os = req.os;
  version = req.version;
  is_online = Bool.false;
  last_seen = 0;
  last_handshake = 0;
  rx_bytes = 0;
  tx_bytes = 0;
  vnc_port = req.vnc_port;
  vnc_available = Bool.false;
  relay_id = [];
  status = [];
  member_token = [];
  created_at = 0;
}

-- What one attempt comes to: a status for the reply, a clash of addresses, or the peer.
pub data Attempt : Type 0 where
  stopped : ℕ → Attempt
  clashed : Attempt
  registered : Peer → Attempt

unfoldable pub attempt_outcome : Answer Peer × List Row → Attempt × List Row
attempt_outcome (answer peer, rows) = (registered peer, rows)
attempt_outcome (fault ip_conflict, rows) = (clashed, rows)
attempt_outcome (fault not_found, rows) = (stopped 500, rows)
attempt_outcome (fault failed, rows) = (stopped 500, rows)

-- A clash is followed by what `again` does; anything else ends the loop.
unfoldable pub after_attempt :
    (List Row → Attempt × List Row) → Attempt × List Row → Attempt × List Row
after_attempt again (clashed, rows) = again rows
after_attempt again (stopped status, rows) = (stopped status, rows)
after_attempt again (registered peer, rows) = (registered peer, rows)

module _ (v6 : V6Text) (m : Moment) (down : ℕ → Bool) (others : ℕ → List Row → List Row)
    (networks : List Network) (network : Network) (req : PeerRegisterRequest) where
  -- The registration under the address that was chosen, by statement n.
  unfoldable pub attempt_at : ℕ → List Row → Option Bytes → Attempt × List Row
  attempt_at n rows none = (stopped 409, rows)
  attempt_at n rows (some ip) =
      attempt_outcome (register_peer v6 m (down n) (registration network req ip) (others n rows))

  unfoldable pub attempt_beside : ℕ → List Row → Answer (List Peer) → Attempt × List Row
  attempt_beside n rows (fault e) = (stopped 500, rows)
  attempt_beside n rows (answer current) =
      attempt_at n rows (choose_ip v6 network.cidr req.machine_id current)

  -- One attempt: statement n lists the peers, and the next one registers.
  unfoldable pub attempt : ℕ → List Row → Attempt × List Row
  attempt n rows =
      let found = others n rows in
      attempt_beside (n + 1) found (list_network_peers v6 (down n) networks network.id found)

  -- The attempts that are left.
  unfoldable pub register_attempts : ℕ → ℕ → List Row → Attempt × List Row
  register_attempts zero n rows = (clashed, rows)
  register_attempts (suc left) n rows =
      after_attempt (λ after. register_attempts left (n + 2) after) (attempt n rows)

  unfoldable pub snapshot_reply : Peer → Answer (List Peer) → Reply PeerRegistrationResponse
  snapshot_reply peer (fault e) = refused 500
  snapshot_reply peer (answer listed) = success 200 (record {
    virtual_ip = peer.virtual_ip;
    network_cidr = network.cidr;
    peer_id = peer.id;
    public_key = peer.public_key;
    peers = keep (λ candidate. bytes_equal candidate.id peer.id || candidate.is_online) listed;
  })

  unfoldable pub registered_reply : Attempt × List Row → Reply PeerRegistrationResponse × List Row
  registered_reply (stopped status, rows) = (refused status, rows)
  registered_reply (clashed, rows) = (refused 409, rows)
  registered_reply (registered peer, rows) =
      let found = others 7 rows in
      (snapshot_reply peer (list_network_peers v6 (down 7) networks network.id found), found)

abbrev pub max_register_attempts : ℕ
max_register_attempts = 3

unfoldable pub clean_registration : PeerRegisterRequest → PeerRegisterRequest
clean_registration req = record {
  machine_id = trim_space req.machine_id;
  public_key = trim_space req.public_key;
  name = trim_space req.name;
  os = trim_space req.os;
  version = trim_space req.version;
  vnc_port = if req.vnc_port == 0 then 5900 else req.vnc_port;
}

-- The request of a user who owns the network.
unfoldable pub register_clean :
    V6Text
    → Moment
    → (ℕ → Bool)
    → (ℕ → List Row → List Row)
    → List Network
    → Network
    → PeerRegisterRequest
    → List Row
    → Reply PeerRegistrationResponse × List Row
register_clean v6 m down others networks network req rows =
    if is_empty req.machine_id || is_empty req.public_key
    then (refused 400, rows)
    else registered_reply v6 m down others networks network req
        (register_attempts v6 m down others networks network req max_register_attempts 1 rows)

unfoldable pub register_checked :
    V6Text
    → Moment
    → (ℕ → Bool)
    → (ℕ → List Row → List Row)
    → List Network
    → Option PeerRegisterRequest
    → List Row
    → Checked Network
    → Reply PeerRegistrationResponse × List Row
register_checked v6 m down others networks body rows (refuse status) = (refused status, rows)
register_checked v6 m down others networks none rows (pass network) = (refused 400, rows)
register_checked v6 m down others networks (some req) rows (pass network) =
    register_clean v6 m down others networks network (clean_registration req) rows

-- `RegisterPeer` of the handler.
unfoldable pub handle_register_peer :
    V6Text
    → Moment
    → (ℕ → Bool)
    → (ℕ → List Row → List Row)
    → Option Bytes
    → Bytes
    → Option PeerRegisterRequest
    → List Network
    → List Row
    → Reply PeerRegistrationResponse × List Row
handle_register_peer v6 m down others user id body networks rows =
    register_checked v6 m down others networks body rows (user_network (down 0) user id networks)
