-- ===== src/Api/Coordination/Tests.antt =====
-- The coordinator at a small database.
use vpn_cloude.Base.{
  ◌≡◌, refl, true, false, some, [], ◌∷◌, Bytes, bytes_equal, codes, if◌then◌else◌,
}
use vpn_cloude.Base.Select.{any, keep, order_by}
use vpn_cloude.Stdlib.Text.{trim_space, trim, trim_left, trim_right}
use vpn_cloude.Stdlib.Ip.{to4, parse_v4_from, parse_v4, family_mark, parse_ip, dotted, ip_string}
use vpn_cloude.Store.{scan_peer, normalize_host_ipv4}
use vpn_cloude.Store.Queries.{scan_all, get_online_peers}
use vpn_cloude.Api.{success}
use vpn_cloude.Api.Tunnel.{CoordEntry}
use vpn_cloude.Api.Coordination.{
  CachedEntry, expired, cached, update_endpoints, apply_entry, apply_index, coord_items,
  coord_index, coord_list_peers,
}
use vpn_cloude.Api.Samples.{only_v4, laptop, database}

abbrev cached_entry : CoordEntry
cached_entry = record {
  peer_id = codes "p1";
  network_id = codes "n1";
  public_endpoint = codes "8.8.4.4:700";
  local_endpoints = [];
}

abbrev entry_of : Bytes → CachedEntry
entry_of id = if bytes_equal id (codes "p1") then cached cached_entry else expired

-- The endpoint is that of Redis, an entry that is gone leaves the index, and the token is shown.
laptop_listed :
    coord_list_peers only_v4 true false
      (λ id. some (codes "p9" ∷ codes "p1" ∷ []))
      entry_of
      (codes " n1")
      []
      database
    ≡ (
      success 200 (
          record (scan_peer only_v4 laptop) {
            public_endpoint = codes "8.8.4.4:700";
            member_token = codes "t1";
          }
          ∷ []),
      codes "p9" ∷ [],
    )
unfolding coord_list_peers coord_index coord_items apply_index apply_entry update_endpoints
    get_online_peers scan_all scan_peer normalize_host_ipv4 keep any order_by bytes_equal trim_space
    trim trim_left trim_right family_mark parse_ip parse_v4 parse_v4_from to4 ip_string dotted
laptop_listed = refl
