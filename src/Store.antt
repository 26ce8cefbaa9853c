-- ===== src/Store.antt =====
-- The rows of the server's tables and how a row of peers is read (server/internal/database/queries/peers.go
-- and networks.go, with the columns of database/migrations). An inet column is kept as the text that the
-- driver gives for it.
pub mod Constraints
pub mod Register
pub mod Queries
pub mod Updates
pub mod Statements
pub mod Atomic
pub mod Writes
pub mod Pending
pub mod Stale
mod Tests
pub mod Networks
use vpn_cloude.Base.{
  ℕ, ◌+◌, ◌/◌, ◌%◌, Bool, true, false, ◌&&◌, Option, none, some, List, [], ◌∷◌, ◌++◌, ltb, leb,
  if◌then◌else◌, take, Bytes, codes,
}
use vpn_cloude.Stdlib.Hex.{hex_text}
use vpn_cloude.Stdlib.Text.{is_empty, trim_space, index_byte}
use vpn_cloude.Stdlib.Ip.{V6Text, to4, parse_ip, parse_cidr, ip_string}

pub record Network : Type 0 where
  pub id : Bytes
  pub owner_id : Bytes
  pub name : Bytes
  pub network_id : Bytes
  pub cidr : Bytes
  pub description : Bytes
  pub max_peers : ℕ
  pub is_active : Bool
  pub access_control : Bytes
  pub created_at : ℕ

-- A row of peers: a column that may be NULL is optional.
pub record Row : Type 0 where
  pub id : Bytes
  pub network_id : Bytes
  pub name : Option Bytes
  pub machine_id : Bytes
  pub public_key : Bytes
  pub virtual_ip : Bytes
  pub public_endpoint : Option Bytes
  pub local_endpoints : List Bytes
  pub os : Option Bytes
  pub version : Option Bytes
  pub is_online : Bool
  pub last_seen : Option ℕ
  pub last_handshake : Option ℕ
  pub rx_bytes : ℕ
  pub tx_bytes : ℕ
  pub vnc_port : ℕ
  pub vnc_available : Bool
  pub relay_id : Option Bytes
  pub status : Bytes
  pub member_token : Option Bytes
  pub created_at : ℕ

pub record Peer : Type 0 where
  pub id : Bytes
  pub network_id : Bytes
  pub name : Bytes
  pub machine_id : Bytes
  pub public_key : Bytes
  pub virtual_ip : Bytes
  pub public_endpoint : Bytes
  pub local_endpoints : List Bytes
  pub os : Bytes
  pub version : Bytes
  pub is_online : Bool
  pub last_seen : ℕ
  pub last_handshake : ℕ
  pub rx_bytes : ℕ
  pub tx_bytes : ℕ
  pub vnc_port : ℕ
  pub vnc_available : Bool
  pub relay_id : Bytes
  pub status : Bytes
  pub member_token : Bytes
  pub created_at : ℕ

pub record Database : Type 0 where
  pub networks : List Network
  pub peers : List Row

-- A missing row, a clash of (network_id, virtual_ip), or another failure of a statement.
pub data DbError : Type 0 where
  not_found ip_conflict failed : DbError

pub data Answer {ℓ} (A : Type ℓ) : Type ℓ where
  answer : A → Answer A
  fault : DbError → Answer A

-- What a statement gives, unless it fails for a reason that is not in the tables (the connection, the form
-- of an argument).
abbrev pub unless_down {ℓ} : {A : Type ℓ} → Bool → Answer A → Answer A
unless_down true a = fault failed
unless_down false a = a

-- A query for one row: no row is `ErrNotFound`.
abbrev pub one_row {ℓ} : {A : Type ℓ} → Option A → Answer A
one_row none = fault not_found
one_row (some a) = answer a

-- A NULL leaves the zero value of the field.
abbrev pub text_or_empty : Option Bytes → Bytes
text_or_empty none = []
text_or_empty (some s) = s

abbrev pub time_or_zero : Option ℕ → ℕ
time_or_zero none = 0
time_or_zero (some t) = t

-- The address that `net.ParseCIDR` returns beside the network.
pub cidr_address : V6Text → Bytes → Option Bytes
cidr_address v6 text = elim (index_byte 47 text) [
  | none ↦ none
  | some i ↦ elim (parse_cidr v6 text) [ none ↦ none | some net ↦ parse_ip v6 (take i text) ]
]

-- The address as IPv4 text, or what the caller has for one that is not IPv4.
abbrev pub ipv4_text_or : V6Text → Bytes → Bytes → Bytes
ipv4_text_or v6 other ip = elim (to4 ip) [ none ↦ other | some ipv4 ↦ ip_string v6 ipv4 ]

unfoldable pub normalize_host_ipv4 : V6Text → Bytes → Bytes
normalize_host_ipv4 v6 raw =
    let trimmed = trim_space raw in
    if is_empty trimmed then [] else (elim (parse_ip v6 trimmed) [
      | some ip ↦ ipv4_text_or v6 trimmed ip
      | none ↦ elim (cidr_address v6 trimmed) [
        | none ↦ trimmed
        | some ip ↦ ipv4_text_or v6 trimmed ip
      ]
    ])

unfoldable pub scan_peer : V6Text → Row → Peer
scan_peer v6 row = record {
  id = row.id;
  network_id = row.network_id;
  name = text_or_empty row.name;
  machine_id = row.machine_id;
  public_key = row.public_key;
  virtual_ip = normalize_host_ipv4 v6 row.virtual_ip;
  public_endpoint = text_or_empty row.public_endpoint;
  local_endpoints = row.local_endpoints;
  os = text_or_empty row.os;
  version = text_or_empty row.version;
  is_online = row.is_online;
  last_seen = time_or_zero row.last_seen;
  last_handshake = time_or_zero row.last_handshake;
  rx_bytes = row.rx_bytes;
  tx_bytes = row.tx_bytes;
  vnc_port = if leb 1 row.vnc_port && leb row.vnc_port 65535 then row.vnc_port else 5900;
  vnc_available = row.vnc_available;
  relay_id = text_or_empty row.relay_id;
  status = if is_empty row.status then codes "approved" else row.status;
  member_token = text_or_empty row.member_token;
  created_at = row.created_at;
}

-- The token of 32 random bytes, if the generator gave them.
abbrev pub generate_member_token : Option Bytes → Option Bytes
generate_member_token none = none
generate_member_token (some buf) = some (codes "mt_" ++ hex_text buf)
