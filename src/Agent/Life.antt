-- ===== src/Agent/Life.antt =====
-- Start and Stop of client/internal/agent/agent.go. What the other parts answer is an input; errors that Start
-- only logs (of the hole puncher and of the API after the registered_as) are left out.
use vpn_cloude.Base.{
  ℕ, Bool, true, false, not, ◌&&◌, ◌||◌, Option, none, some, List, [], ◌∷◌, ◌==◌, if◌then◌else◌,
  Bytes,
}
use vpn_cloude.Stdlib.Text.{is_empty, trim_space}
use vpn_cloude.Stdlib.Ip.{V6Text}
use vpn_cloude.Agent.{
  AgentState, state_authenticating, state_registering, state_discovering, state_connecting,
  state_running, state_stopped, set_state, max_int, Config, Agent, AgentCall, announce,
  heartbeat_sent, set_local_public_endpoint, Beat, refresh_endpoint_if_needed, fresh_or,
  local_ips_with_port,
}

pub data StartError : Type 0 where
  no_server_url no_network_id no_api_key login_failed no_key_pair register_failed : StartError
  tunnel_not_created tunnel_not_started : StartError

-- The address, the id of the peer, and that of the member if the agent uses its token.
pub record Identity : Type 0 where
  pub virtual_ip : Bytes
  pub peer_id : Bytes
  pub member_id : Bytes

-- The API key of a login, whether there are keys, the registered_as, the tunnel, the network, and the search for
-- a VNC server.
pub record Launch : Type 0 where
  pub login : Option Bytes
  pub key_pair : Bool
  pub registered_as : Option (Bytes × Bytes)
  pub tunnel_created : Bool
  pub tunnel_started : Bool
  pub beat : Beat
  pub port_open : Bool
  pub port : ℕ
  pub available : Bool

abbrev pub use_member_token : Config → Bool
use_member_token config =
    not (is_empty (trim_space config.member_token))
    && not (is_empty (trim_space config.member_id))
    && not (is_empty (trim_space config.wg_private_key))

-- Whether there is an API key, or a login gives one.
unfoldable pub login_error : Config → Option Bytes → Option StartError
login_error config login =
    let logged : Option StartError = elim login [ none ↦ some login_failed | some key ↦ none ] in
    if not (is_empty (trim_space config.api_key))
    then none
    else if is_empty (trim_space config.email) || is_empty (trim_space config.password)
    then some no_api_key
    else logged

abbrev pub enter : AgentState → Agent → Agent
enter state a = record a { machine = set_state state a.machine }

-- What comes of a phase of `Start`: the agent, and the error that ended the start_agent.
abbrev pub Phase : Type 0
Phase = Option StartError × Agent

unfoldable pub register_phase : Bool → Option (Bytes × Bytes) → Agent → Phase
register_phase false registered_as a = (some no_key_pair, a)
register_phase true none a = (some register_failed, a)
register_phase true (some (virtual_ip, peer_id)) a =
    (none, record a { virtual_ip = virtual_ip; peer_id = peer_id })

unfoldable pub login_phase : Option StartError → Launch → Agent → Phase
login_phase (some e) launch a = (some e, a)
login_phase none launch a =
    register_phase launch.key_pair launch.registered_as (enter state_registering a)

-- The id of the agent, by its token or by a registered_as.
unfoldable pub identify : Config → Launch → Agent → Phase
identify config launch a =
    if use_member_token config
    then (
      none,
      record a {
        virtual_ip = config.virtual_ip;
        peer_id = config.member_id;
        member_id = config.member_id;
      },
    )
    else login_phase (login_error config launch.login) launch a

unfoldable pub tunnel_phase : Config → Launch → Phase → Phase
tunnel_phase config launch (some e, a) = (some e, a)
tunnel_phase config launch (none, a) =
    let ready = record a { wg_listen_port = max_int config.wg_listen_port 51820 } in
    if not launch.tunnel_created
    then (some tunnel_not_created, ready)
    else if not launch.tunnel_started
    then (some tunnel_not_started, ready)
    else (none, ready)

-- The announcement, the first heartbeat, and the endpoint for the peer manager. Without a token an agent that has
-- no endpoint announces nothing.
unfoldable pub first_calls : Config → Bytes → Bytes → List Bytes → List AgentCall
first_calls config id endpoint local =
    let told : List AgentCall =
      if is_empty endpoint then [] else set_local_public_endpoint endpoint ∷ [] in
    if use_member_token config || not (is_empty endpoint)
    then announce id endpoint local ∷ heartbeat_sent id endpoint local ∷ told
    else heartbeat_sent id endpoint local ∷ told

unfoldable pub find_vnc : Config → Launch → Agent → Agent
find_vnc config launch a =
    if not (config.vnc_port == 0)
    then record a { vnc_port = config.vnc_port; vnc_available = launch.port_open }
    else record a { vnc_port = launch.port; vnc_available = launch.available }

-- The discovery of the endpoint and of a VNC server, and the loops.
unfoldable pub run_phase :
    V6Text → Config → Launch → Phase → Option StartError × List AgentCall × Agent
run_phase v6 config launch (some e, a) = (some e, [], a)
run_phase v6 config launch (none, a) =
    let beat = launch.beat in
    let (found, discovered) =
      refresh_endpoint_if_needed v6 config beat.now true beat.stun beat.outbound
        (enter state_discovering a) in
    let local = local_ips_with_port (max_int config.wg_listen_port 51820) beat.local_ips in
    (
      none,
      first_calls config discovered.peer_id (fresh_or [] found) local,
      enter state_running (enter state_connecting (find_vnc config launch discovered)),
    )

unfoldable pub start_agent :
    V6Text → Config → Launch → Agent → Option StartError × List AgentCall × Agent
start_agent v6 config launch a =
    if is_empty (trim_space config.server_url)
    then (some no_server_url, [], a)
    else if is_empty (trim_space config.network_id)
    then (some no_network_id, [], a)
    else run_phase v6 config launch
        (tunnel_phase config launch (identify config launch (enter state_authenticating a)))

abbrev first_error : List (Option Bytes) → Option Bytes
first_error [] = none
first_error (none ∷ errors) = first_error errors
first_error (some e ∷ errors) = some e

-- The first error of the peer manager, the hole puncher and the tunnel, all of which are stopped.
unfoldable pub stop_agent :
    Option Bytes → Option Bytes → Option Bytes → Agent → Option Bytes × Agent
stop_agent manager puncher tunnel a =
    (first_error (manager ∷ puncher ∷ tunnel ∷ []), enter state_stopped a)
