-- ===== src/Api/MachineTests.antt =====
-- The theorem on the registration of machines at a small database.
use vpn_cloude.Base.{ℕ, ◌≡◌, refl, true, false, none, some, List, [], ◌∷◌, codes, bytes_equal}
use vpn_cloude.Store.Networks.{get_network}
use vpn_cloude.Base.Select.{find, order_by, keep, any}
use vpn_cloude.Stdlib.Text.{trim_space, trim, trim_right, trim_left, index_byte}
use vpn_cloude.Store.Queries.{list_network_peers, get_online_peers, scan_all}
use vpn_cloude.Netutil.{
  allocate_ip, address_of, first_free, host_range, ip_to_uint32, is_used, mask_to_uint32,
  uint32_to_ip, used_words, word_of_octets,
}
use vpn_cloude.Stdlib.Ip.{
  parse_cidr, and_bytes, cidr_mask, contains_ip, dotted, family_mark, ip_string, mask_ip, parse_ip,
  parse_v4, parse_v4_from, to4,
}
use vpn_cloude.Stdlib.Hex.{hex_text}
use vpn_cloude.Stdlib.Number.{digits_value}
use vpn_cloude.Store.Constraints.{inet_of, insert_row, put_row, replace, upsert, write_row}
use vpn_cloude.Store.{Row, Network, answer, scan_peer, normalize_host_ipv4}
use vpn_cloude.Store.Register.{
  Moment, register_peer, register_with, registered_again, registered_row,
}
use vpn_cloude.Api.{success, user_network, owned_network, coordinator_ip}
use vpn_cloude.Api.Owner.{Owns}
use vpn_cloude.Api.Registration.{
  PeerRegisterRequest, PeerRegistrationResponse, handle_register_peer, clean_registration,
  register_checked, register_clean, register_attempts, after_attempt, attempt, attempt_beside,
  attempt_at, attempt_outcome, choose_ip, normalized_ips, machine_ip, normalize_peer_virtual_ipv4,
  registration, registered_reply, snapshot_reply,
}
use vpn_cloude.Api.Registered.{IsReplied, handle_register_peer_lem}
use vpn_cloude.Api.Samples.{only_v4, home, laptop, phone, database, never_down}

abbrev quiet : ℕ → List Row → List Row
quiet n rows = rows

abbrev tablet : PeerRegisterRequest
tablet = record {
  machine_id = codes " m3";
  public_key = codes "key-of-the-tablet";
  name = codes "tablet";
  os = codes "linux";
  version = codes "1.0";
  vnc_port = 0;
}

abbrev at_nine : Moment
at_nine = record { now = 9; id = codes "p3"; random = some (1 ∷ 2 ∷ []) }

abbrev tablet_row : Row
tablet_row = record {
  id = codes "p3";
  network_id = codes "n1";
  name = some (codes "tablet");
  machine_id = codes "m3";
  public_key = codes "key-of-the-tablet";
  virtual_ip = codes "10.0.0.3";
  public_endpoint = some [];
  local_endpoints = [];
  os = some (codes "linux");
  version = some (codes "1.0");
  is_online = true;
  last_seen = none;
  last_handshake = none;
  rx_bytes = 0;
  tx_bytes = 0;
  vnc_port = 5900;
  vnc_available = false;
  relay_id = none;
  status = [];
  member_token = some (codes "mt_0102");
  created_at = 9;
}

abbrev reply : PeerRegistrationResponse
reply = record {
  virtual_ip = codes "10.0.0.3";
  network_cidr = codes "10.0.0.0/29";
  peer_id = codes "p3";
  public_key = codes "key-of-the-tablet";
  peers = scan_peer only_v4 laptop ∷ scan_peer only_v4 tablet_row ∷ [];
}

-- The tablet gets the first free address and stands at the end of the table.
tablet_registered :
    handle_register_peer only_v4 at_nine never_down quiet
      (some (codes "ann"))
      (codes "n1")
      (some tablet)
      (home ∷ [])
      database.peers
    ≡ (success 200 reply, laptop ∷ phone ∷ tablet_row ∷ [])
unfolding inet_of handle_register_peer register_checked register_clean clean_registration
    user_network owned_network register_attempts after_attempt attempt attempt_beside attempt_at
    attempt_outcome choose_ip normalized_ips machine_ip normalize_peer_virtual_ipv4 registration
    register_peer register_with registered_reply snapshot_reply get_network find bytes_equal
    trim_space trim trim_right trim_left list_network_peers scan_all order_by keep any
    coordinator_ip allocate_ip parse_cidr index_byte address_of first_free host_range ip_to_uint32
    is_used mask_to_uint32 uint32_to_ip used_words word_of_octets hex_text and_bytes cidr_mask
    contains_ip dotted family_mark ip_string mask_ip parse_ip parse_v4 parse_v4_from to4
    digits_value insert_row put_row replace upsert write_row registered_again registered_row
    normalize_host_ipv4 scan_peer
tablet_registered = refl

-- Its row has no status, so the peers that are listed as online never include it.
tablet_hidden :
    get_online_peers only_v4 false (home ∷ []) (codes "n1") (laptop ∷ phone ∷ tablet_row ∷ [])
    ≡ answer (scan_peer only_v4 laptop ∷ [])
unfolding get_online_peers scan_all scan_peer order_by keep any bytes_equal
tablet_hidden = refl

handle_register_peer_lem_example :
    (network : Network) × Owns false (some (codes "ann")) (codes "n1") (home ∷ []) network
    × IsReplied only_v4 at_nine never_down quiet
        (home ∷ [])
        network
        (clean_registration tablet)
        reply
        (laptop ∷ phone ∷ tablet_row ∷ [])
handle_register_peer_lem_example =
    handle_register_peer_lem only_v4 at_nine never_down quiet (some (codes "ann")) (codes "n1")
      tablet (home ∷ []) database.peers 200 reply (laptop ∷ phone ∷ tablet_row ∷ [])
      tablet_registered
