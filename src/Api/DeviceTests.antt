-- ===== src/Api/DeviceTests.antt =====
-- The theorems on devices, joins and refusals at a small database.
use vpn_cloude.Base.{◌≡◌, refl, true, false, some, List, [], ◌∷◌, Bytes, codes, bytes_equal, All}
use vpn_cloude.Base.Select.{any, keep, find, order_by}
use vpn_cloude.Stdlib.Text.{trim_space, trim, trim_left, trim_right, has_prefix}
use vpn_cloude.Stdlib.Ip.{to4, parse_v4_from, parse_v4, family_mark, parse_ip, dotted, ip_string}
use vpn_cloude.Store.{Row, Peer, Database, normalize_host_ipv4, scan_peer, answer}
use vpn_cloude.Store.Networks.{get_network_by_public_id}
use vpn_cloude.Store.Queries.{
  scan_all, get_peer_by_public_key, get_peer_by_member_token, get_online_peers,
}
use vpn_cloude.Store.Register.{Moment, register_pending_peer, register_pending_with, pending_again}
use vpn_cloude.Store.Constraints.{upsert, write_row, put_row, replace}
use vpn_cloude.Stdlib.Hex.{hex_text}
use vpn_cloude.Store.Updates.{PeerStatusUpdate}
use vpn_cloude.Api.{success, hide_token, hide_tokens}
use vpn_cloude.Api.Safe.{IsSafe}
use vpn_cloude.Api.Refusals.{refusals-IsSafe}
use vpn_cloude.Api.Members.{approve_member, reject_member, kick_member}
use vpn_cloude.Api.Devices.{
  read_bearer_token, matching_member, authenticate_member, approved_only, other_approved,
  peers_listed, peers_checked, member_peers, member_heartbeat, member_announce,
}
use vpn_cloude.Api.Agents.{heartbeat, unregister_peer}
use vpn_cloude.Api.Tunnel.{
  CoordEntry, token_owner, auth_member, merge_entry, merge_entries, tunnel_listed,
  tunnel_peers_checked, tunnel_peers, tunnel_heartbeat,
}
use vpn_cloude.Api.Join.{
  JoinRequest, join, join_clean, join_network, join_known, join_new, joined, clean_request,
  new_peer,
}
use vpn_cloude.Api.Join.Manual.{NoApproval, join-NoApproval}
use vpn_cloude.Api.Networks.{handle_delete_network, handle_update_network}
use vpn_cloude.Api.Networks.Owned.{
  IsOwned, IsSeparate, Pairs, Deletes, Renames, network_changes-IsOwned,
}
use vpn_cloude.Api.Visible.{IsShown}
use vpn_cloude.Api.Access.{Holds, IsOwnId, tunnel_peers-IsShown}
use vpn_cloude.Api.Samples.{only_v4, home, laptop, database, never_down, phone_after, phone_shown}

abbrev online_phone : Row
online_phone = record phone_after { is_online = true; last_seen = some 8 }

abbrev both_online : Database
both_online = record { networks = home ∷ []; peers = laptop ∷ online_phone ∷ [] }

abbrev seen_phone : Peer
seen_phone = record phone_shown { is_online = true; last_seen = 8 }

abbrev announced : Bytes → List CoordEntry
announced id =
    record {
      peer_id = codes "p2";
      network_id = codes "n1";
      public_endpoint = codes "8.8.4.4:700";
      local_endpoints = [];
    }
    ∷ []

-- The list for the tunnel has the endpoint of Redis.
phone_listed :
    tunnel_peers only_v4 never_down announced (codes "p1") (codes "Bearer t1") both_online
    ≡ success 200 (record seen_phone { public_endpoint = codes "8.8.4.4:700" } ∷ [])
unfolding tunnel_peers auth_member token_owner read_bearer_token has_prefix tunnel_peers_checked
    tunnel_listed get_peer_by_member_token get_online_peers merge_entry merge_entries hide_tokens
    hide_token scan_all scan_peer normalize_host_ipv4 find any keep order_by bytes_equal trim_space
    trim trim_left trim_right family_mark parse_ip parse_v4 parse_v4_from to4 ip_string dotted
phone_listed = refl

-- A device that was rejected gets the list all the same.
abbrev with_rejected : Database
with_rejected = record {
  networks = home ∷ [];
  peers = record laptop { status = codes "rejected" } ∷ online_phone ∷ [];
}

rejected_lists :
    tunnel_peers only_v4 never_down (λ id. []) (codes "p1") (codes "Bearer t1") with_rejected
    ≡ success 200 (seen_phone ∷ [])
unfolding tunnel_peers auth_member token_owner read_bearer_token has_prefix tunnel_peers_checked
    tunnel_listed get_peer_by_member_token get_online_peers merge_entries hide_tokens hide_token
    scan_all scan_peer normalize_host_ipv4 find any keep order_by bytes_equal trim_space trim
    trim_left trim_right family_mark parse_ip parse_v4 parse_v4_from to4 ip_string dotted
rejected_lists = refl

tunnel_peers-IsShown_example :
    (row : Row) × Holds (read_bearer_token (codes "Bearer t1")) both_online.peers row
    × IsOwnId (trim_space (codes "p1")) row.id
    × All
        (IsShown (home ∷ []) row.network_id row.id)
        (record seen_phone { public_endpoint = codes "8.8.4.4:700" } ∷ [])
tunnel_peers-IsShown_example =
    tunnel_peers-IsShown only_v4 never_down both_online announced (codes "p1") (codes "Bearer t1")
      200 (record seen_phone { public_endpoint = codes "8.8.4.4:700" } ∷ []) phone_listed

phone_seen :
    member_peers only_v4 never_down (codes "p1") (codes "Bearer t1") both_online
    ≡ success 200 (seen_phone ∷ [])
unfolding member_peers authenticate_member matching_member approved_only read_bearer_token
    has_prefix peers_checked peers_listed other_approved get_peer_by_member_token get_online_peers
    hide_tokens hide_token scan_all scan_peer normalize_host_ipv4 find any keep order_by bytes_equal
    trim_space trim trim_left trim_right family_mark parse_ip parse_v4 parse_v4_from to4 ip_string
    dotted
phone_seen = refl

abbrev request : JoinRequest
request = record {
  network_id = codes "abc";
  hostname = codes "tablet";
  wg_public_key = codes "key-of-the-tablet";
  os = codes "linux";
  arch = codes "arm64";
}

abbrev moment : Moment
moment = record { now = 9; id = codes "p3"; random = some (1 ∷ 2 ∷ []) }

home_found :
    get_network_by_public_id (never_down 0) (trim_space (codes "abc")) (home ∷ []) ≡ answer home
unfolding get_network_by_public_id find bytes_equal trim_space trim trim_left trim_right
home_found = refl

home_manual : bytes_equal home.access_control (codes "auto") ≡ false
unfolding bytes_equal
home_manual = refl

-- An approved device whose key begins with the same 12 bytes as that of the tablet.
abbrev tower : Row
tower = record laptop {
  id = codes "p9";
  machine_id = codes "join_key-of-the-t";
  public_key = codes "key-of-the-tower";
  member_token = some (codes "t9");
}

abbrev with_tower : Database
with_tower = record { networks = home ∷ []; peers = tower ∷ [] }

-- The tablet, which nobody approved, gets the token of the tower, and its key stands in the approved row.
tower_taken_over :
    join only_v4 (codes "linux") (codes "amd64") moment never_down (some request) with_tower ≡ (
      success 201 (record {
        member_id = codes "p9";
        member_token = codes "t9";
        status = codes "pending";
        virtual_ip = [];
        network_cidr = codes "10.0.0.0/29";
        network_name = codes "home";
      }),
      record tower {
        name = some (codes "tablet");
        public_key = codes "key-of-the-tablet";
        os = some (codes "linux");
        version = some (codes "arm64");
        last_seen = some 9;
      }
          ∷ [],
    )
unfolding join join_clean join_network join_known join_new joined clean_request new_peer
    get_network_by_public_id get_peer_by_public_key register_pending_peer register_pending_with
    upsert write_row put_row replace pending_again scan_peer normalize_host_ipv4 find any keep
    bytes_equal trim_space trim trim_left trim_right hex_text family_mark parse_ip parse_v4
    parse_v4_from to4 ip_string dotted
tower_taken_over = refl

join-NoApproval_example :
    NoApproval 9 home
      (clean_request (codes "linux") (codes "amd64") request)
      (tower ∷ [])
      (join only_v4 (codes "linux") (codes "amd64") moment never_down (some request) with_tower)
join-NoApproval_example =
    join-NoApproval only_v4 (codes "linux") (codes "amd64") moment never_down request with_tower
      home home_found home_manual

abbrev report : PeerStatusUpdate
report = record {
  public_endpoint = codes "8.8.4.4:700";
  local_endpoints = [];
  vnc_available = false;
  rx_bytes = 1;
  tx_bytes = 2;
  relay_id = [];
}

refusals-IsSafe_example :
    IsSafe database.peers
      (approve_member only_v4 never_down (some (codes "bob")) (codes "abc") (codes "p2") database)
    × IsSafe database.peers
        (reject_member only_v4 never_down (some (codes "bob")) (codes "abc") (codes "p2") database)
    × IsSafe database.peers
        (kick_member only_v4 never_down (some (codes "bob")) (codes "abc") (codes "p2") database)
    × IsSafe database.peers (
        heartbeat only_v4 9 never_down
          (some (codes "bob"))
          (codes "abc")
          (codes "p2")
          (some report)
          database)
    × IsSafe database.peers
        (unregister_peer never_down (some (codes "bob")) (codes "abc") (some (codes "m2")) database)
    × IsSafe database.peers (
        member_heartbeat only_v4 9 never_down
          (codes "p2")
          (codes "Bearer t2")
          (some report)
          database)
    × IsSafe database.peers (
        member_announce only_v4 9 never_down
          (codes "p2")
          (codes "Bearer t2")
          (some report)
          database)
    × IsSafe database.peers (
        tunnel_heartbeat only_v4 9 never_down
          (codes "p2")
          (codes "Bearer t2")
          (some report)
          database.peers)
    × IsSafe database.peers
        (join only_v4 (codes "linux") (codes "amd64") moment never_down (some request) database)
refusals-IsSafe_example =
    refusals-IsSafe only_v4 9 moment never_down (some (codes "bob")) (codes "abc") (codes "p2")
      (codes "Bearer t2") (codes "linux") (codes "amd64") (some (codes "m2")) (some report)
      (some request) database

home-IsSeparate : IsSeparate (home ∷ [])
home-IsSeparate = ((λ same. cc same, tt), tt)

network_changes-IsOwned_example :
    IsOwned never_down
      (some (codes "ann"))
      (codes "n1")
      (home ∷ [])
      (λ network. Pairs (Deletes network) (home ∷ []))
      (handle_delete_network never_down (some (codes "ann")) (codes "n1") (home ∷ []))
    × IsOwned never_down
        (some (codes "ann"))
        (codes "n1")
        (home ∷ [])
        (λ network. Pairs (Renames (codes "office") [] network) (home ∷ []))
        (handle_update_network never_down
          (some (codes "ann"))
          (codes "n1")
          (some (codes "office", []))
          (home ∷ []))
network_changes-IsOwned_example =
    network_changes-IsOwned never_down (some (codes "ann")) (codes "n1") (home ∷ []) home-IsSeparate
      (codes "office") []
