-- ===== src/Agent.antt =====
-- The agent of client/internal/agent/agent.go and its state machine (state.go): its intervals, the discovery
-- of its endpoint and the step of each loop. Times are in seconds.
pub mod Beats
pub mod Frames
pub mod PublicEndpoint
pub mod Life
pub mod Started
mod Tests
use vpn_cloude.Base.{
  ℕ, suc, ◌+◌, ◌-◌, ◌%◌, ◌^◌, min, Bool, true, false, not, ◌&&◌, ◌||◌, Option, none, some, List, [],
  ◌∷◌, ◌++◌, ltb, leb, ◌==◌, if◌then◌else◌, length, take, drop, Bytes, bytes_equal, codes,
}
use vpn_cloude.Stdlib.Text.{is_empty, trim_space}
use vpn_cloude.Stdlib.Number.{itoa}
use vpn_cloude.Stdlib.Ip.{V6Text, parse_ip, ip_string}
use vpn_cloude.Stdlib.HostPort.{join_host_port, split_host_port}
use vpn_cloude.Peer.Endpoint.{is_routable_ipv4, Via, p2p, lan, relay}

pub data AgentState : Type 0 where
  state_init state_authenticating state_registering state_discovering : AgentState
  state_connecting state_running state_reconnecting state_stopped : AgentState

abbrev state_number : AgentState → ℕ
state_number state_init = 0
state_number state_authenticating = 1
state_number state_registering = 2
state_number state_discovering = 3
state_number state_connecting = 4
state_number state_running = 5
state_number state_reconnecting = 6
state_number state_stopped = 7

-- The state, and the transitions that the listeners were told of, the last one first.
pub record StateMachine : Type 0 where
  pub state : AgentState
  pub told : List (AgentState × AgentState)

unfoldable pub set_state : AgentState → StateMachine → StateMachine
set_state next machine =
    if state_number machine.state == state_number next
    then machine
    else record { state = next; told = (machine.state, next) ∷ machine.told }

-- A number that is not positive is 0.
abbrev pub max_int : ℕ → ℕ → ℕ
max_int value fallback = if ltb 0 value then value else fallback

abbrev pub min_int : ℕ → ℕ → ℕ
min_int a b = if ltb a b then a else b

unfoldable pub bounded_seconds : ℕ → ℕ → ℕ → ℕ → ℕ
bounded_seconds value fallback min_sec max_sec =
    let raised = if ltb value min_sec then min_sec else value in
    let lowered = if ltb max_sec raised then max_sec else raised in
    if value == 0 then fallback else lowered

-- The fields of the configuration that the loops read.
pub record Config : Type 0 where
  pub server_url : Bytes
  pub network_id : Bytes
  pub api_key : Bytes
  pub email : Bytes
  pub password : Bytes
  pub member_id : Bytes
  pub member_token : Bytes
  pub wg_private_key : Bytes
  pub virtual_ip : Bytes
  pub network_cidr : Bytes
  pub device_name : Bytes
  pub vnc_port : ℕ
  pub wg_listen_port : ℕ
  pub heartbeat_interval_sec : ℕ
  pub peer_sync_interval_sec : ℕ
  pub quality_monitor_interval_sec : ℕ
  pub endpoint_refresh_interval_sec : ℕ

abbrev pub heartbeat_interval : Config → ℕ
heartbeat_interval config = bounded_seconds config.heartbeat_interval_sec 30 10 600

abbrev pub peer_sync_interval : Config → ℕ
peer_sync_interval config = bounded_seconds config.peer_sync_interval_sec 15 10 600

abbrev pub quality_monitor_interval : Config → ℕ
quality_monitor_interval config = bounded_seconds config.quality_monitor_interval_sec 60 30 1800

abbrev pub endpoint_refresh_interval : Config → ℕ
endpoint_refresh_interval config = bounded_seconds config.endpoint_refresh_interval_sec 60 60 3600

pub record Agent : Type 0 where
  pub machine : StateMachine
  pub virtual_ip : Bytes
  pub peer_id : Bytes
  pub member_id : Bytes
  pub public_endpoint : Bytes
  pub last_endpoint_refresh : ℕ
  pub wg_listen_port : ℕ
  pub vnc_port : ℕ
  pub vnc_available : Bool

abbrev pub current_wg_port : Config → Agent → ℕ
current_wg_port config a =
    if ltb 0 a.wg_listen_port then a.wg_listen_port else max_int config.wg_listen_port 51820

abbrev pub routable_text : V6Text → Bytes → Option Bytes
routable_text v6 text = elim (parse_ip v6 (trim_space text)) [
  | none ↦ none
  | some ip ↦ if is_routable_ipv4 ip then some (ip_string v6 ip) else none
]

-- The address that STUN gave, if it gave one, else the local address towards the internet, of which the empty
-- text says that there is none.
unfoldable pub discover_public_ip : V6Text → Option Bytes → Bytes → Option Bytes
discover_public_ip v6 none outbound = routable_text v6 outbound
discover_public_ip v6 (some stun) outbound = elim (routable_text v6 stun) [
  | some ip ↦ some ip
  | none ↦ routable_text v6 outbound
]

-- The endpoint in use and whether it changed; `none` is an error.
unfoldable pub refreshed : Config → ℕ → Agent → Option Bytes → Option (Bytes × Bool) × Agent
refreshed config now a none =
    if not (is_empty a.public_endpoint) then (some (a.public_endpoint, false), a) else (none, a)
refreshed config now a (some ip) =
    let fresh = join_host_port ip (itoa (current_wg_port config a)) in
    (
      some (fresh, not (bytes_equal fresh a.public_endpoint)),
      record a { public_endpoint = fresh; last_endpoint_refresh = now },
    )

unfoldable pub refresh_endpoint_if_needed :
    V6Text → Config → ℕ → Bool → Option Bytes → Bytes → Agent → Option (Bytes × Bool) × Agent
refresh_endpoint_if_needed v6 config now force stun outbound a =
    if not force
      && not (is_empty a.public_endpoint)
      && ltb (now - a.last_endpoint_refresh) (endpoint_refresh_interval config)
    then (some (a.public_endpoint, false), a)
    else refreshed config now a (discover_public_ip v6 stun outbound)

-- `getLocalIPsWithPort` of the addresses of the interfaces.
unfoldable pub local_ips_with_port : ℕ → List Bytes → List Bytes
local_ips_with_port port [] = []
local_ips_with_port port (ip ∷ ips) =
    let host : Bytes = elim (split_host_port ip) [ none ↦ ip | some (h, p) ↦ h ] in
    join_host_port host (itoa port) ∷ local_ips_with_port port ips

-- What the loops ask of the other parts.
pub data AgentCall : Type 0 where
  announce heartbeat_sent : Bytes → Bytes → List Bytes → AgentCall
  set_local_public_endpoint : Bytes → AgentCall
  force_relay attempt_direct : Bytes → AgentCall

-- What one heartbeat meets: the clock, the answer of STUN, the local address, the interfaces, and whether the
-- server takes the heartbeat.
pub record Beat : Type 0 where
  pub now : ℕ
  pub stun : Option Bytes
  pub outbound : Bytes
  pub local_ips : List Bytes
  pub accepted : Bool

abbrev pub fresh_or : Bytes → Option (Bytes × Bool) → Bytes
fresh_or endpoint none = endpoint
fresh_or endpoint (some (fresh, changed)) = if is_empty fresh then endpoint else fresh

-- `sendMemberHeartbeat` and `sendHeartbeat`, which differ in the id: the calls, whether the heartbeat
-- succeeded, and the agent after it.
unfoldable pub send_heartbeat :
    V6Text → Config → Bytes → Beat → Agent → List AgentCall × Bool × Agent
send_heartbeat v6 config id beat a =
    let (found, after) =
      refresh_endpoint_if_needed v6 config beat.now false beat.stun beat.outbound a in
    let endpoint = fresh_or a.public_endpoint found in
    let local = local_ips_with_port (current_wg_port config after) beat.local_ips in
    if is_empty id then ([], false, a) else (
      announce id endpoint local
          ∷ set_local_public_endpoint endpoint
          ∷ heartbeat_sent id endpoint local
          ∷ [],
      beat.accepted,
      after,
    )

abbrev pub max_reconnect_backoff : ℕ
max_reconnect_backoff = 120

-- The pause after a number of failures in a row.
unfoldable pub backoff : ℕ → ℕ
backoff failures =
    let wait = 2 ^ min_int failures 6 in
    if ltb max_reconnect_backoff wait then max_reconnect_backoff else wait

-- The agent and the count of the loop of `heartbeatLoop`.
pub record Beating : Type 0 where
  pub agent : Agent
  pub failures : ℕ

abbrev pub id_of : Bool → Agent → Bytes
id_of use_member_token a = if use_member_token then a.member_id else a.peer_id

-- One tick: the calls, the pause after a failure, and the loop after it.
unfoldable pub beat_outcome : Beating → List AgentCall × Bool × Agent → List AgentCall × ℕ × Beating
beat_outcome b (calls, false, after) = (
  calls,
  backoff (suc b.failures),
  record {
    agent = record after { machine = set_state state_reconnecting after.machine };
    failures = suc b.failures;
  },
)
beat_outcome b (calls, true, after) = (
  calls,
  0,
  if ltb 0 b.failures
      then record {
        agent = record after { machine = set_state state_running after.machine };
        failures = 0;
      }
      else record { agent = after; failures = b.failures },
)

unfoldable pub beat_once : V6Text → Config → Bool → Beat → Beating → List AgentCall × ℕ × Beating
beat_once v6 config use_member_token beat b =
    beat_outcome b (send_heartbeat v6 config (id_of use_member_token b.agent) beat b.agent)

-- One tick of `vncDiscoveryLoop`: whether the configured port is open, and what the search finds.
unfoldable pub discover_vnc : Config → Bool → ℕ → Bool → Agent → Agent
discover_vnc config port_open port available a =
    if ltb 0 config.vnc_port
    then record a { vnc_available = port_open }
    else record a { vnc_port = port; vnc_available = available }

-- A connection as the quality monitor reads it, with its latency in milliseconds.
pub record Quality : Type 0 where
  pub peer_id : Bytes
  pub via : Via
  pub latency : ℕ

abbrev is_p2p : Via → Bool
is_p2p p2p = true
is_p2p _ = false

abbrev is_relay : Via → Bool
is_relay relay = true
is_relay _ = false

-- One tick of `qualityMonitorLoop`, with the count of the ticks.
unfoldable pub monitor_quality : ℕ → List Quality → List AgentCall
monitor_quality probe_count [] = []
monitor_quality probe_count (c ∷ connections) =
    let later = monitor_quality probe_count connections in
    if is_p2p c.via && ltb 300 c.latency
    then force_relay c.peer_id ∷ later
    else if is_relay c.via && (probe_count % 3 == 0)
    then attempt_direct c.peer_id ∷ later
    else later

abbrev pub packet_magic : Bytes
packet_magic = 81 ∷ 84 ∷ 68 ∷ 84 ∷ []

-- The destination of an IPv4 packet that was read from the device: `net.IP` of its bytes 16 to 19.
abbrev pub destination : Bytes → Bytes
destination packet = take 4 (drop 16 packet)

-- The outbound loop: the datagram and its endpoint. `endpoint_of` gives the endpoint
-- that the tunnel has for a virtual address, if it has one and it resolves.
unfoldable pub frame_packet : V6Text → (Bytes → Option Bytes) → Bytes → Option (Bytes × Bytes)
frame_packet v6 endpoint_of packet =
    if ltb (length packet) 20
    then none
    else (elim (endpoint_of (ip_string v6 (destination packet))) [
      | none ↦ none
      | some endpoint ↦ some (endpoint, packet_magic ++ packet)
    ])

-- The inbound loop: the packet for the device.
unfoldable pub accept_datagram : Bytes → Option Bytes
accept_datagram datagram =
    if ltb (length datagram) 24
    then none
    else if not (bytes_equal (take 4 datagram) packet_magic)
    then none
    else some (drop 4 datagram)
