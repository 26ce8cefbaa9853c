-- ===== src/Agent/Tests.antt =====
-- The theorems on the agent at a concrete configuration.
use vpn_cloude.Base.{
  ◌≡◌, refl, inl, true, false, Option, none, some, [], ◌∷◌, ◌++◌, Bytes, codes, bytes_equal,
}
use vpn_cloude.Stdlib.Ip.{
  V6Text, ip_string, parse_ip, family_mark, parse_v4, parse_v4_from, to4, dotted, is_loopback,
  is_multicast, is_private, is_unspecified,
}
use vpn_cloude.Stdlib.Text.{
  trim_space, trim, trim_left, trim_right, contains_byte, index_byte, last_index_byte, is_empty,
}
use vpn_cloude.Peer.Endpoint.{is_routable_ipv4}
use vpn_cloude.Stdlib.HostPort.{join_host_port, split_host_port}
use vpn_cloude.Stdlib.Number.{itoa, itoa_on}
use vpn_cloude.Agent.{
  state_running, Config, Agent, Beat, Beating, beat_once, refresh_endpoint_if_needed, destination,
  frame_packet, accept_datagram, packet_magic, bounded_seconds, beat_outcome, send_heartbeat,
  refreshed, discover_public_ip, backoff, local_ips_with_port, set_state, id_of,
}
use vpn_cloude.Agent.Beats.{Reach, start, tick, Recovered, beat_once-Recovered}
use vpn_cloude.Agent.Frames.{accept_datagram-frame_packet}
use vpn_cloude.Agent.PublicEndpoint.{Refreshes, refresh_endpoint_if_needed-Refreshes}
use vpn_cloude.Agent.Life.{Launch, use_member_token}
use vpn_cloude.Agent.Life
use vpn_cloude.Agent.Started.{new_machine, IsStarted, start_agent-IsStarted}

abbrev only_v4 : V6Text
only_v4 = record { parse = λ text. none; print = λ ip. [] }

abbrev config : Config
config = record {
  server_url = codes "https://vpn.example.com";
  network_id = codes "abc";
  api_key = codes "k";
  email = [];
  password = [];
  member_id = [];
  member_token = [];
  wg_private_key = [];
  virtual_ip = [];
  network_cidr = [];
  device_name = [];
  vnc_port = 0;
  wg_listen_port = 0;
  heartbeat_interval_sec = 5;
  peer_sync_interval_sec = 0;
  quality_monitor_interval_sec = 0;
  endpoint_refresh_interval_sec = 0;
}

-- An interval below the least one is raised.
short_interval : bounded_seconds config.heartbeat_interval_sec 30 10 600 ≡ 10
unfolding bounded_seconds
short_interval = refl

abbrev new_agent : Agent
new_agent = record {
  machine = new_machine;
  virtual_ip = [];
  peer_id = codes "p1";
  member_id = [];
  public_endpoint = [];
  last_endpoint_refresh = 0;
  wg_listen_port = 51820;
  vnc_port = 0;
  vnc_available = false;
}

abbrev running_agent : Agent
running_agent = record new_agent { machine = record { state = state_running; told = [] } }

abbrev lost_beat : Beat
lost_beat = record {
  now = 100;
  stun = some (codes "8.8.4.4");
  outbound = [];
  local_ips = codes "192.168.1.5" ∷ [];
  accepted = false;
}

abbrev taken_beat : Beat
taken_beat = record lost_beat { now = 130; accepted = true }

abbrev begun : Beating
begun = record { agent = running_agent; failures = 0 }

abbrev failing : Beating
failing = (beat_once only_v4 config false lost_beat begun).2

failing-Reach : Reach only_v4 config false failing
failing-Reach = tick lost_beat (start running_agent refl)

one_failure : (failing.failures ≡ 1) × (is_empty (id_of false failing.agent) ≡ false)
unfolding beat_once beat_outcome send_heartbeat refresh_endpoint_if_needed refreshed
    discover_public_ip parse_ip family_mark trim_space trim trim_left trim_right parse_v4
    parse_v4_from is_routable_ipv4 to4 bytes_equal backoff bounded_seconds local_ips_with_port
    set_state join_host_port split_host_port dotted ip_string is_loopback is_multicast is_private
    is_unspecified itoa itoa_on contains_byte index_byte last_index_byte
one_failure = (refl, refl)

beat_once-Recovered_example : Recovered (beat_once only_v4 config false taken_beat failing)
beat_once-Recovered_example =
    beat_once-Recovered {b = failing} taken_beat failing-Reach one_failure.1 refl

refresh_endpoint_if_needed-Refreshes_example :
    Refreshes only_v4
      (refresh_endpoint_if_needed only_v4 config 100 false (some (codes "8.8.4.4")) [] new_agent)
refresh_endpoint_if_needed-Refreshes_example =
    refresh_endpoint_if_needed-Refreshes only_v4 config 100 false (some (codes "8.8.4.4")) []
      new_agent (inl refl)

abbrev packet : Bytes
packet = 69 ∷ 0 ∷ 0 ∷ 20 ∷ 0 ∷ 0 ∷ 0 ∷ 0 ∷ 64 ∷ 17 ∷ 0 ∷ 0 ∷ 10 ∷ 7 ∷ 0 ∷ 2 ∷ 10 ∷ 7 ∷ 0 ∷ 3 ∷ []

abbrev endpoint_of : Bytes → Option Bytes
endpoint_of ip = some (codes "8.8.4.4:51820")

forwarded :
    frame_packet only_v4 endpoint_of packet ≡ some (codes "8.8.4.4:51820", packet_magic ++ packet)
unfolding frame_packet
forwarded = refl

accept_datagram-frame_packet_example :
    (endpoint_of (ip_string only_v4 (destination packet)) ≡ some (codes "8.8.4.4:51820"))
    × (accept_datagram (packet_magic ++ packet) ≡ some packet)
accept_datagram-frame_packet_example =
    accept_datagram-frame_packet only_v4 endpoint_of packet (codes "8.8.4.4:51820")
      (packet_magic ++ packet) forwarded

abbrev launch : Launch
launch = record {
  login = none;
  key_pair = true;
  registered_as = some (codes "10.7.0.2", codes "p1");
  tunnel_created = true;
  tunnel_started = true;
  beat = taken_beat;
  port_open = false;
  port = 5900;
  available = false;
}

start_agent-IsStarted_example :
    IsStarted (use_member_token config) (Life.start_agent only_v4 config launch new_agent)
start_agent-IsStarted_example = start_agent-IsStarted only_v4 config launch new_agent refl
