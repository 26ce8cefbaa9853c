-- ===== src/Peer/Manager/Relay.antt =====
-- `resolveRelayEndpoint` of client/internal/peer/manager.go.
use vpn_cloude.Peer.Endpoint.Chosen.{IsUsable, sanitize_endpoint-IsUsable}
use vpn_cloude.Base.{
  ◌≡◌, subst, Option-cases, inl, inr, arith, ℕ, not, ◌&&◌, ◌||◌, Option, none, some, ltb, ◌==◌,
  if◌then◌else◌, take, Bytes,
}
use vpn_cloude.Stdlib.Text.{is_empty, trim_space, trim_brackets, last_index_byte, count_byte}
use vpn_cloude.Stdlib.Number.{itoa}
use vpn_cloude.Stdlib.Ip.{V6Text}
use vpn_cloude.Stdlib.HostPort.{join_host_port, split_host_port}
use vpn_cloude.Peer.Endpoint.{Surroundings, is_internal_host_name, sanitize_endpoint}

-- The fields of a relay assignment that are read. A port that is not positive is 0.
pub record RelayInfo : Type 0 where
  pub relay_host : Bytes
  pub relay_port : ℕ
  pub relay_endpoint : Bytes

pub data Assigned : Type 0 where
  assigned : RelayInfo → Assigned
  missing_api_key other_failure : Assigned

-- The ids of the member and the network, and the answers of the server. `member_relay` takes the id of a
-- member and of a peer.
pub record Api : Type 0 where
  pub member_id : Bytes
  pub network_id : Bytes
  pub member_relay : Bytes → Bytes → Assigned
  pub network_relay : Bytes → Assigned

abbrev answer : Assigned → Option RelayInfo
answer (assigned info) = some info
answer missing_api_key = none
answer other_failure = none

-- A network that asks for an API key is asked again as the local peer.
unfoldable pub nearest_relay : Api → Bytes → Bytes → Option RelayInfo
nearest_relay api local_peer_id peer_id =
    if not (is_empty api.member_id)
    then answer (api.member_relay api.member_id peer_id)
    else (elim (api.network_relay peer_id) [
      | assigned info ↦ some info
      | missing_api_key ↦
          if not (is_empty (trim_space local_peer_id))
          then answer (api.member_relay local_peer_id peer_id)
          else none
      | other_failure ↦ none
    ])

-- A port after the host is dropped.
unfoldable pub relay_host_only : Bytes → Bytes
relay_host_only host = elim (split_host_port host) [
  | some (h, port) ↦ h
  | none ↦ elim (last_index_byte 58 host) [
    | none ↦ host
    | some i ↦ if ltb 0 i && (count_byte 58 host == 1) then take i host else host
  ]
]

-- An internal host gives way to that of the relay's endpoint, and then to the public host of the server.
unfoldable pub relay_host_of : V6Text → Bytes → RelayInfo → Bytes
relay_host_of v6 public info =
    let named = trim_brackets (relay_host_only (trim_space info.relay_host)) in
    let from_endpoint = elim (split_host_port (trim_space info.relay_endpoint)) as (λ _. Bytes) [
      | none ↦ named
      | some (h, port) ↦ if not (is_internal_host_name v6 h) then h else named
    ] in
    let host = if is_internal_host_name v6 named then from_endpoint else named in
    if is_internal_host_name v6 host then public else host

-- The endpoint of an assignment, if it can be used.
unfoldable pub assigned_endpoint : Surroundings → Bytes → RelayInfo → Option Bytes
assigned_endpoint env public info =
    let port =
      if (info.relay_port == 0) || ltb 65535 info.relay_port then 3478 else info.relay_port in
    let endpoint =
      sanitize_endpoint env (join_host_port (relay_host_of env.v6 public info) (itoa port)) 3478 in
    if is_empty endpoint then none else some endpoint

unfoldable pub resolve_relay_endpoint : Surroundings → Api → Bytes → Bytes → Option Bytes
resolve_relay_endpoint env api local_peer_id peer_id = elim env.public_host [
  | none ↦ none
  | some public ↦ elim (nearest_relay api local_peer_id peer_id) [
    | none ↦ none
    | some info ↦ assigned_endpoint env public info
  ]
]

assigned_endpoint-IsUsable :
    (env : Surroundings) (public : Bytes) (info : RelayInfo) (endpoint : Bytes)
    → assigned_endpoint env public info ≡ some endpoint
    → IsUsable env.v6 endpoint
unfolding assigned_endpoint
assigned_endpoint-IsUsable env public info endpoint e =
    let port =
      if (info.relay_port == 0) || ltb 65535 info.relay_port then 3478 else info.relay_port in
    let raw = join_host_port (relay_host_of env.v6 public info) (itoa port) in
    let given : sanitize_endpoint env raw 3478 ≡ endpoint = ground (arith, e) in
    elim (sanitize_endpoint-IsUsable env raw 3478 (omega arith) (omega arith)) [
      | inl gone ↦ absurd (ground (arith, gone, e))
      | inr usable ↦ subst (IsUsable env.v6) given usable
    ]

-- An endpoint that is resolved has a host that is not internal and a port from 1 to 65535.
pub resolve_relay_endpoint-IsUsable :
    (env : Surroundings) (api : Api) (local_peer_id peer_id endpoint : Bytes)
    → resolve_relay_endpoint env api local_peer_id peer_id ≡ some endpoint
    → IsUsable env.v6 endpoint
unfolding resolve_relay_endpoint
resolve_relay_endpoint-IsUsable env api local_peer_id peer_id endpoint e =
    elim (Option-cases env.public_host) [
      | inl no_client ↦ absurd (ground (arith, no_client, e))
      | inr (public, client) ↦ elim (Option-cases (nearest_relay api local_peer_id peer_id)) [
        | inl failed ↦ absurd (ground (arith, client, failed, e))
        | inr (info, given) ↦
            assigned_endpoint-IsUsable env public info endpoint (ground (arith, client, given, e))
      ]
    ]
