-- ===== src/Store/Register.antt =====
-- RegisterPeer and RegisterPendingPeer of server/internal/database/queries/peers.go, as functions of the table.
use vpn_cloude.Base.{ℕ, Bool, true, false, Option, none, some, List, if◌then◌else◌, Bytes, codes}
use vpn_cloude.Stdlib.Text.{is_empty, trim_space}
use vpn_cloude.Stdlib.Ip.{V6Text}
use vpn_cloude.Store.{Row, Peer, Answer, fault, failed, generate_member_token}
use vpn_cloude.Store.Constraints.{null_if_empty, upsert}

-- What a statement takes from outside the tables: the clock, the id of a new row, and random bytes.
pub record Moment : Type 0 where
  pub now : ℕ
  pub id : Bytes
  pub random : Option Bytes

-- The row of INSERT in `RegisterPeer`.
unfoldable pub registered_row : Moment → Bytes → Peer → Row
registered_row m token peer = record {
  id = m.id;
  network_id = peer.network_id;
  name = some peer.name;
  machine_id = peer.machine_id;
  public_key = peer.public_key;
  virtual_ip = peer.virtual_ip;
  public_endpoint = some peer.public_endpoint;
  local_endpoints = peer.local_endpoints;
  os = some peer.os;
  version = some peer.version;
  is_online = true;
  last_seen = none;
  last_handshake = none;
  rx_bytes = 0;
  tx_bytes = 0;
  vnc_port = peer.vnc_port;
  vnc_available = peer.vnc_available;
  relay_id = null_if_empty peer.relay_id;
  status = peer.status;
  member_token = null_if_empty token;
  created_at = m.now;
}

-- DO UPDATE in `RegisterPeer`.
unfoldable pub registered_again : ℕ → Peer → Row → Row
registered_again now peer row = record row {
  network_id = peer.network_id;
  name = some peer.name;
  public_key = peer.public_key;
  virtual_ip = peer.virtual_ip;
  public_endpoint = some peer.public_endpoint;
  local_endpoints = peer.local_endpoints;
  os = some peer.os;
  version = some peer.version;
  is_online = true;
  last_seen = some now;
  vnc_port = peer.vnc_port;
  vnc_available = peer.vnc_available;
  relay_id = null_if_empty peer.relay_id;
}

-- The row of INSERT in `RegisterPendingPeer`.
unfoldable pub pending_row : Moment → Bytes → Peer → Row
pending_row m token peer = record (registered_row m token peer) {
  virtual_ip = if is_empty peer.virtual_ip then codes "0.0.0.0" else peer.virtual_ip;
  is_online = false;
  vnc_available = false;
  relay_id = none;
  member_token = some token;
}

-- DO UPDATE in `RegisterPendingPeer`.
unfoldable pub pending_again : ℕ → Peer → Row → Row
pending_again now peer row = record row {
  name = some peer.name;
  public_key = peer.public_key;
  os = some peer.os;
  version = some peer.version;
  last_seen = some now;
}

abbrev pub token_or_generated : Option Bytes → Bool → Bytes → Option Bytes
token_or_generated random missing token =
    if missing then generate_member_token random else some token

-- `RegisterPeer` with the token of the row, if there is one.
unfoldable pub register_with :
    V6Text → Moment → Bool → Peer → List Row → Option Bytes → Answer Peer × List Row
register_with v6 m down peer rows none = (fault failed, rows)
register_with v6 m down peer rows (some token) =
    if down
    then (fault failed, rows)
    else upsert v6 peer.machine_id (registered_row m token peer) (registered_again m.now peer) rows

unfoldable pub register_peer : V6Text → Moment → Bool → Peer → List Row → Answer Peer × List Row
register_peer v6 m down peer rows =
    register_with v6 m down peer rows
      (token_or_generated m.random (is_empty (trim_space peer.member_token)) peer.member_token)

-- `RegisterPendingPeer` with the token of the row, if there is one.
unfoldable pub register_pending_with :
    V6Text → Moment → Bool → Peer → List Row → Option Bytes → Answer Peer × List Row
register_pending_with v6 m down peer rows none = (fault failed, rows)
register_pending_with v6 m down peer rows (some token) =
    if down
    then (fault failed, rows)
    else upsert v6 peer.machine_id (pending_row m token peer) (pending_again m.now peer) rows

unfoldable pub register_pending_peer :
    V6Text → Moment → Bool → Peer → List Row → Answer Peer × List Row
register_pending_peer v6 m down peer rows =
    register_pending_with v6 m down peer rows
      (token_or_generated m.random (is_empty peer.member_token) peer.member_token)
