-- ===== src/Peer/Endpoint/Tests.antt =====
-- Runs of the choice of an endpoint, and its theorems at concrete texts.
use vpn_cloude.Base.{◌≡◌, ◌⊎◌, refl, not, none, some, [], codes, bytes_equal, arith}
use vpn_cloude.Stdlib.Text.{
  trim_space, trim, trim_left, trim_right, trim_brackets, to_lower, last_index_byte, contains_byte,
}
use vpn_cloude.Stdlib.Number.{digits_value, atoi, itoa, itoa_on, port_number}
use vpn_cloude.Stdlib.Ip.{
  to4, parse_v4_from, parse_v4, family_mark, parse_ip, dotted, ip_string, is_loopback,
  is_unspecified, is_multicast, is_private, ip_v4,
}
use vpn_cloude.Stdlib.HostPort.{join_host_port, split_host_port}
use vpn_cloude.Peer.Endpoint.{
  Surroundings, PeerInfo, is_internal_host_name, is_routable_ipv4, normalize_public_endpoint,
  read_endpoint, port_or, public_instead, sanitize_endpoint, select_direct_or_lan_endpoint,
}
use vpn_cloude.Peer.Endpoint.Routable.{in_closed_range, is_routable_ipv4-ranges}
use vpn_cloude.Peer.Endpoint.Chosen.{
  IsPublic, IsSelected, normalize_public_endpoint-IsPublic, select_direct_or_lan_endpoint_lem,
}

abbrev surroundings : Surroundings
surroundings = record {
  v6 = record { parse = λ text. none; print = λ ip. [] };
  interfaces = [];
  lan_variable = [];
  public_host = some (codes "vpn.example.com");
}

abbrev peer_b : PeerInfo
peer_b = record {
  id = codes "b";
  name = codes "laptop";
  public_key = codes "key-b";
  virtual_ip = codes "10.7.0.3";
  public_endpoint = codes "8.8.4.4:700";
  local_endpoints = [];
}

-- A port that is out of range gives way to the default one, and an internal host to the public host.
sanitized :
    sanitize_endpoint surroundings (codes " relay:99999") 51820 ≡ codes "vpn.example.com:51820"
unfolding sanitize_endpoint trim_space trim trim_left trim_right read_endpoint split_host_port
    last_index_byte contains_byte port_or port_number atoi digits_value public_instead
    is_internal_host_name to_lower parse_ip family_mark parse_v4 parse_v4_from bytes_equal
    trim_brackets join_host_port itoa itoa_on
sanitized = refl

announced : normalize_public_endpoint surroundings.v6 (codes "8.8.4.4:700") ≡ codes "8.8.4.4:700"
unfolding normalize_public_endpoint trim_space trim trim_left trim_right split_host_port
    last_index_byte contains_byte is_routable_ipv4 to4 parse_ip family_mark parse_v4 parse_v4_from
    bytes_equal join_host_port ip_string dotted is_loopback is_unspecified is_multicast is_private
announced = refl

normalize_public_endpoint-IsPublic_example :
    (normalize_public_endpoint surroundings.v6 (codes "8.8.4.4:700") ≡ [])
    ⊎ IsPublic surroundings.v6 (normalize_public_endpoint surroundings.v6 (codes "8.8.4.4:700"))
normalize_public_endpoint-IsPublic_example =
    normalize_public_endpoint-IsPublic surroundings.v6 (codes "8.8.4.4:700")

is_routable_ipv4-ranges_example :
    is_routable_ipv4 (ip_v4 172 20 1 1) ≡ not (in_closed_range 172 20 1 1)
is_routable_ipv4-ranges_example = is_routable_ipv4-ranges 172 20 1 1 (omega arith) (omega arith)

select_direct_or_lan_endpoint_lem_example :
    IsSelected surroundings (codes "10.7.0.0/24") (codes "9.9.9.9:51820") peer_b (
      select_direct_or_lan_endpoint surroundings
        (codes "10.7.0.0/24")
        (codes "9.9.9.9:51820")
        peer_b)
select_direct_or_lan_endpoint_lem_example =
    select_direct_or_lan_endpoint_lem surroundings (codes "10.7.0.0/24") (codes "9.9.9.9:51820")
      peer_b
