-- ===== src/Peer/Manager/Tests.antt =====
-- The theorems on a sync at concrete peers.
use vpn_cloude.Base.{
  ◌⊎◌, ◌≡◌, refl, subst, true, none, some, List, [], ◌∷◌, codes, bytes_equal, arith,
}
use mathlib.Core.Option.{some-injective}
use vpn_cloude.Base.Assoc.{lookup}
use vpn_cloude.Stdlib.Text.{
  trim_space, trim, trim_left, trim_right, trim_brackets, to_lower, last_index_byte, contains_byte,
}
use vpn_cloude.Stdlib.Number.{digits_value, atoi, itoa, itoa_on, port_number}
use vpn_cloude.Stdlib.Ip.{
  to4, parse_v4_from, parse_v4, family_mark, parse_ip, is_loopback, is_unspecified,
}
use vpn_cloude.Stdlib.HostPort.{join_host_port, split_host_port}
use vpn_cloude.Peer.Endpoint.{
  Surroundings, PeerInfo, p2p, is_internal_host_name, sanitize_endpoint, read_endpoint, port_or,
  public_instead,
}
use vpn_cloude.Peer.Endpoint.Chosen.{IsUsable}
use vpn_cloude.Peer.Manager.Relay.{
  assigned, other_failure, resolve_relay_endpoint, assigned_endpoint, nearest_relay, relay_host_of,
  relay_host_only,
}
use vpn_cloude.Peer.Manager.{
  PeerError, PeerConnection, World, Manager, is_observed, sync_fetched, sync_peers_once,
}
use vpn_cloude.Peer.Manager.Switch.{force_relay, move_peer, IsForced, force_relay_lem}
use vpn_cloude.Peer.Manager.Usable.{AllUsable, sync_peers_once-AllUsable}
use vpn_cloude.Peer.Manager.Sync.{sync_peers_once-observed}
use vpn_cloude.Peer.Manager.Keep.{Kept, sync_peers_once-Kept}

abbrev surroundings : Surroundings
surroundings = record {
  v6 = record { parse = λ text. none; print = λ ip. [] };
  interfaces = [];
  lan_variable = [];
  public_host = some (codes "vpn.example.com");
}

abbrev peer_b : PeerInfo
peer_b = record {
  id = codes "b";
  name = codes "laptop";
  public_key = codes "key-b";
  virtual_ip = codes "10.7.0.3";
  public_endpoint = codes "8.8.4.4:700";
  local_endpoints = [];
}

abbrev world : World
world = record {
  env = surroundings;
  api = record {
    member_id = [];
    network_id = codes "n";
    member_relay = λ member peer. other_failure;
    network_relay = λ peer. other_failure;
  };
  now = 9;
  fetched = some (peer_b ∷ []);
  tunnel_there = true;
  wg_ready = true;
  tun_cidr = codes "10.7.0.0/24";
  local_peer_id = codes "a";
  local_public_endpoint = codes "9.9.9.9:51820";
  add_ok = λ key endpoint allowed. true;
  update_ok = λ key endpoint. true;
}

abbrev connection_b : PeerConnection
connection_b = record {
  peer_id = codes "b";
  peer_name = codes "laptop";
  public_key = codes "key-b";
  virtual_ip = codes "10.7.0.3";
  endpoint = codes "8.8.8.8:51820";
  connected_via = p2p;
  last_seen = 3;
}

abbrev manager : Manager
manager = record { peers = (codes "b", connection_b) ∷ []; calls = [] }

connection_b-IsUsable : IsUsable surroundings.v6 (codes "8.8.8.8:51820")
unfolding join_host_port contains_byte itoa itoa_on is_internal_host_name to_lower trim_space trim
    trim_left trim_right parse_ip family_mark parse_v4 parse_v4_from is_loopback is_unspecified to4
    bytes_equal
connection_b-IsUsable = (codes "8.8.8.8", 51820, refl, refl, omega arith, omega arith)

manager-AllUsable : AllUsable world manager
unfolding lookup
manager-AllUsable id conn e = ground (arith, e, connection_b-IsUsable)

sync_peers_once-AllUsable_example : AllUsable world (sync_peers_once world manager).1
sync_peers_once-AllUsable_example = sync_peers_once-AllUsable world manager manager-AllUsable

observed_b : is_observed world (codes "b") (peer_b ∷ []) ≡ true
unfolding is_observed bytes_equal
observed_b = refl

fetched_observed :
    (listed : List PeerInfo)
    → some (peer_b ∷ []) ≡ some listed
    → is_observed world (codes "b") listed ≡ true
fetched_observed listed e =
    subst (λ l. is_observed world (codes "b") l ≡ true) (some-injective _ _ e) observed_b

b-Kept : Kept (codes "b") connection_b (sync_peers_once world manager).1.peers
b-Kept =
    sync_peers_once-Kept world manager (codes "b") connection_b (unfold lookup bytes_equal in refl)
      fetched_observed

sync_peers_once-Kept_example : Kept (codes "b") connection_b (sync_peers_once world manager).1.peers
sync_peers_once-Kept_example =
    sync_peers_once-Kept world manager (codes "b") connection_b (unfold lookup bytes_equal in refl)
      fetched_observed

sync_peers_once-observed_example :
    (listed : List PeerInfo) × (some (peer_b ∷ []) ≡ some listed)
    × (is_observed world (codes "b") listed ≡ true)
sync_peers_once-observed_example =
    sync_peers_once-observed world manager (codes "b") b-Kept.0
      (unfold sync_peers_once sync_fetched in refl) b-Kept.1

-- A server that assigns a relay.
abbrev relay_world : World
relay_world = record world {
  api = record {
    member_id = [];
    network_id = codes "n";
    member_relay = λ member peer. other_failure;
    network_relay = λ peer. assigned (record {
      relay_host = codes "relay.example.com:3478";
      relay_port = 3478;
      relay_endpoint = [];
    });
  };
}

forced : (force_relay relay_world (codes "b") manager).0 ≡ none
unfolding force_relay move_peer lookup bytes_equal resolve_relay_endpoint assigned_endpoint
    nearest_relay relay_host_of relay_host_only sanitize_endpoint read_endpoint port_or port_number
    atoi digits_value public_instead is_internal_host_name trim_brackets trim_space trim trim_left
    trim_right to_lower split_host_port join_host_port last_index_byte contains_byte itoa itoa_on
    parse_ip family_mark parse_v4 parse_v4_from
forced = refl

force_relay_lem_example :
    ((e : PeerError) × ((force_relay relay_world (codes "b") manager).0 ≡ some e)
      × ((force_relay relay_world (codes "b") manager).1.peers ≡ manager.peers))
    ⊎ (((force_relay relay_world (codes "b") manager).0 ≡ none)
        × IsForced relay_world (codes "b") manager (force_relay relay_world (codes "b") manager).1)
force_relay_lem_example = force_relay_lem relay_world (codes "b") manager
