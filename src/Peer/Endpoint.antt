-- ===== src/Peer/Endpoint.antt =====
-- The choice of a peer's endpoint in client/internal/peer/manager.go. Endpoints are texts.
pub mod Chosen
pub mod Routable
mod Tests
use vpn_cloude.Base.{
  ℕ, zero, suc, ◌+◌, Bool, true, false, not, ◌&&◌, ◌||◌, Option, none, some, List, [], ◌∷◌, leb,
  ltb, ◌==◌, if◌then◌else◌, length, get_or, take, drop, Bytes, bytes_equal, codes,
}
use vpn_cloude.Stdlib.Text.{
  is_empty, trim_space, trim_brackets, to_lower, index_byte, contains_byte, count_byte, has_prefix,
}
use vpn_cloude.Stdlib.Number.{itoa, port_number}
use vpn_cloude.Stdlib.Ip.{
  V6Text, IpNet, to4, parse_ip, parse_cidr, contains_ip, ip_string, is_private, is_loopback,
  is_unspecified, is_multicast,
}
use vpn_cloude.Stdlib.HostPort.{join_host_port, split_host_port}

-- What the choice meets outside: the addresses of the interfaces, the variable
-- QT_ENABLE_LAN_ENDPOINT_FALLBACK, and the public host of the API client, if there is a client.
pub record Surroundings : Type 0 where
  pub v6 : V6Text
  pub interfaces : List IpNet
  pub lan_variable : Bytes
  pub public_host : Option Bytes

-- The fields of a peer that the manager reads.
pub record PeerInfo : Type 0 where
  pub id : Bytes
  pub name : Bytes
  pub public_key : Bytes
  pub virtual_ip : Bytes
  pub public_endpoint : Bytes
  pub local_endpoints : List Bytes

abbrev pub default_port_text : Bytes
default_port_text = codes "51820"

unfoldable pub is_internal_host_name : V6Text → Bytes → Bool
is_internal_host_name v6 host =
    let h = to_lower (trim_space host) in
    if is_empty h
    then true
    else if bytes_equal h (codes "relay")
        || bytes_equal h (codes "server")
        || bytes_equal h (codes "localhost")
    then true
    else (elim (parse_ip v6 h) [
      | some ip ↦ is_loopback ip || is_unspecified ip
      | none ↦ not (contains_byte 46 h)
    ])

unfoldable pub is_routable_ipv4 : Bytes → Bool
is_routable_ipv4 ip = elim (to4 ip) [
  | none ↦ false
  | some v4 ↦
      if is_loopback ip || is_multicast ip || is_unspecified ip
      then false
      else if is_private ip
      then false
      else if (get_or v4 0 0 == 169) && (get_or v4 1 0 == 254)
      then false
      else if (get_or v4 0 0 == 100) && leb 64 (get_or v4 1 0) && leb (get_or v4 1 0) 127
      then false
      else true
]

abbrev pub or_default : Bytes → Bytes → Bytes
or_default fallback text = if is_empty text then fallback else text

-- The empty text stands for no endpoint.
pub normalize_public_endpoint : V6Text → Bytes → Bytes
normalize_public_endpoint v6 public_endpoint =
    let endpoint = trim_space public_endpoint in
    if is_empty endpoint then [] else (elim (split_host_port endpoint) [
      | some (host', port') ↦
          let host = trim_space host' in
          let port = or_default default_port_text (trim_space port') in
          elim (parse_ip v6 host) [
            | some ip ↦
                if not (is_routable_ipv4 ip) then [] else join_host_port (ip_string v6 ip) port
            | none ↦ if is_internal_host_name v6 host then [] else join_host_port host port
          ]
      | none ↦ elim (parse_ip v6 endpoint) [
        | some ip ↦
            if not (is_routable_ipv4 ip)
            then []
            else join_host_port (ip_string v6 ip) default_port_text
        | none ↦ []
      ]
    ])

-- The inner loop of `preferLANEndpoint`.
pub on_interface : Bytes → List IpNet → Bool
on_interface ip [] = false
on_interface ip (net ∷ nets) =
    let rest = on_interface ip nets in
    if not (is_loopback net.ip) && (elim (to4 net.ip) [ some v4 ↦ true | none ↦ false ])
    then (if contains_ip net ip then true else rest)
    else rest

abbrev host_and_port : Bytes → Bytes × Bytes
host_and_port ep = elim (split_host_port ep) [ some parts ↦ parts | none ↦ (ep, default_port_text) ]

-- One endpoint that a peer announces, if it is in a network of this machine.
pub lan_candidate : Surroundings → Option IpNet → Bytes → Option Bytes
lan_candidate env tun_net ep =
    let (peer_host, peer_port) = host_and_port ep in
    elim (parse_ip env.v6 peer_host) [
      | none ↦ none
      | some ip ↦ elim (to4 ip) [
        | none ↦ none
        | some v4 ↦
            if has_prefix (codes "169.254.") peer_host || bytes_equal peer_host (codes "127.0.0.1")
            then none
            else if (elim tun_net [ none ↦ false | some net ↦ contains_ip net ip ])
            then none
            else if on_interface ip env.interfaces
            then some (join_host_port peer_host peer_port)
            else none
      ]
    ]

pub first_lan : Surroundings → Option IpNet → List Bytes → Bytes
first_lan env tun_net [] = []
first_lan env tun_net (ep ∷ eps) =
    let rest = first_lan env tun_net eps in
    elim (lan_candidate env tun_net ep) [ none ↦ rest | some endpoint ↦ endpoint ]

pub prefer_lan_endpoint : Surroundings → List Bytes → Bytes → Bytes
prefer_lan_endpoint env local_endpoints tun_cidr =
    first_lan env (parse_cidr env.v6 tun_cidr) local_endpoints

pub lan_fallback_enabled : Surroundings → Bool
lan_fallback_enabled env =
    let v = to_lower (trim_space env.lan_variable) in
    bytes_equal v (codes "1") || bytes_equal v (codes "true") || bytes_equal v (codes "yes")

pub prefer_ipv4 : Surroundings → Bytes → List Bytes → Bytes → Bytes
prefer_ipv4 env public_endpoint local_endpoints tun_cidr =
    let endpoint = normalize_public_endpoint env.v6 public_endpoint in
    if not (is_empty endpoint)
    then endpoint
    else if not (lan_fallback_enabled env)
    then []
    else prefer_lan_endpoint env local_endpoints tun_cidr

unfoldable pub port_or : ℕ → Bytes → ℕ
port_or default_port text = elim (port_number text) [ none ↦ default_port | some n ↦ n ]

-- The host and the port that `sanitizeEndpoint` reads.
unfoldable pub read_endpoint : ℕ → Bytes → Bytes × ℕ
read_endpoint default_port endpoint = elim (split_host_port endpoint) [
  | some (h, p) ↦ (trim_space h, port_or default_port (trim_space p))
  | none ↦
      if (count_byte 58 endpoint == 1) && not (has_prefix (91 ∷ []) endpoint)
      then (elim (index_byte 58 endpoint) [
        | none ↦ (endpoint, default_port)
        | some i ↦ (
          trim_space (take i endpoint),
          port_or default_port (trim_space (drop (i + 1) endpoint)),
        )
      ])
      else (endpoint, default_port)
]

-- A host that is internal gives way to the public host of the API client.
unfoldable pub public_instead : Surroundings → Bytes → Bytes
public_instead env host = elim env.public_host [
  | none ↦ host
  | some public ↦
      let fallback = trim_space public in
      if is_internal_host_name env.v6 host && not (is_internal_host_name env.v6 fallback)
      then fallback
      else host
]

unfoldable pub sanitize_endpoint : Surroundings → Bytes → ℕ → Bytes
sanitize_endpoint env endpoint' default_port =
    let endpoint = trim_space endpoint' in
    let (read_host, read_port) = read_endpoint default_port endpoint in
    let host = public_instead env (trim_brackets read_host) in
    let port = if (read_port == 0) || ltb 65535 read_port then default_port else read_port in
    if is_empty endpoint
    then []
    else if is_internal_host_name env.v6 host
    then []
    else join_host_port host (itoa port)

pub endpoint_host : V6Text → Bytes → Bytes
endpoint_host v6 endpoint' =
    let endpoint = trim_space endpoint' in
    if is_empty endpoint then [] else (elim (split_host_port endpoint) [
      | some (host, port) ↦ trim_brackets (trim_space host)
      | none ↦ elim (parse_ip v6 endpoint) [
        | some ip ↦ ip_string v6 ip
        | none ↦ trim_brackets endpoint
      ]
    ])

pub same_public_nat : V6Text → Bytes → Bytes → Bool
same_public_nat v6 local_public_endpoint peer_public_endpoint =
    let local_host = endpoint_host v6 local_public_endpoint in
    let peer_host = endpoint_host v6 peer_public_endpoint in
    if is_empty local_host || is_empty peer_host
    then false
    else bytes_equal (to_lower local_host) (to_lower peer_host)

pub data Via : Type 0 where
  p2p lan relay nothing : Via

-- The direct endpoint and the one of the local network, as `selectDirectOrLANEndpoint` reads them.
pub direct_endpoint : Surroundings → PeerInfo → Bytes
direct_endpoint env peer =
    sanitize_endpoint env (normalize_public_endpoint env.v6 peer.public_endpoint) 51820

pub lan_endpoint : Surroundings → Bytes → PeerInfo → Bytes
lan_endpoint env tun_cidr peer =
    sanitize_endpoint env (prefer_lan_endpoint env peer.local_endpoints tun_cidr) 51820

pub select_direct_or_lan_endpoint : Surroundings → Bytes → Bytes → PeerInfo → Bytes × Via
select_direct_or_lan_endpoint env tun_cidr local_public_endpoint peer =
    let direct = direct_endpoint env peer in
    let local = lan_endpoint env tun_cidr peer in
    if same_public_nat env.v6 local_public_endpoint peer.public_endpoint
    then (if not (is_empty local) then (local, lan) else ([], nothing))
    else if not (is_empty direct)
    then (direct, p2p)
    else if not (is_empty local) && lan_fallback_enabled env
    then (local, lan)
    else ([], nothing)
