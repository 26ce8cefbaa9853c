-- ===== src/Peer/Endpoint/Chosen.antt =====
-- The endpoints that the manager chooses.
use vpn_cloude.Base.{
  ℕ, ◌<◌, ◌≤◌, ◌≡◌, ◌⊎◌, refl, true, false, not, ◌&&◌, ◌||◌, none, some, [], ltb, ◌==◌,
  if◌then◌else◌, Bytes, Bool-cases, if_split, Option-cases, inl, inr, arith,
}
use vpn_cloude.Stdlib.Text.{is_empty, trim_space, trim_brackets}
use vpn_cloude.Stdlib.Number.{itoa}
use vpn_cloude.Stdlib.Ip.{V6Text, parse_ip, ip_string}
use vpn_cloude.Stdlib.HostPort.{join_host_port, split_host_port}
use vpn_cloude.Peer.Endpoint.{
  default_port_text, or_default, Surroundings, PeerInfo, Via, p2p, lan, nothing,
  is_internal_host_name, is_routable_ipv4, normalize_public_endpoint, read_endpoint, public_instead,
  sanitize_endpoint, same_public_nat, direct_endpoint, lan_endpoint, lan_fallback_enabled,
  select_direct_or_lan_endpoint,
}

-- A host that is not internal, with a port from 1 to 65535.
abbrev pub IsUsable : V6Text → Bytes → Type 0
IsUsable v6 endpoint =
    (host : Bytes) × (port : ℕ) × (endpoint ≡ join_host_port host (itoa port))
    × (is_internal_host_name v6 host ≡ false)
    × (0 < port)
    × (port ≤ 65535)

-- Whatever the text, the result of sanitizeEndpoint is empty, or a host that is not internal with a port
-- from 1 to 65535.
pub sanitize_endpoint-IsUsable :
    (env : Surroundings) (endpoint : Bytes) (default_port : ℕ)
    → 0 < default_port
    → default_port ≤ 65535
    → (sanitize_endpoint env endpoint default_port ≡ [])
      ⊎ IsUsable env.v6 (sanitize_endpoint env endpoint default_port)
unfolding sanitize_endpoint
sanitize_endpoint-IsUsable env endpoint default_port low high =
    let (read_host, read_port) = read_endpoint default_port (trim_space endpoint) in
    let host = public_instead env (trim_brackets read_host) in
    let port = if (read_port == 0) || ltb 65535 read_port then default_port else read_port in
    elim (Bool-cases (is_empty (trim_space endpoint))) [
      | inl blank ↦ inl (ground (arith, blank))
      | inr text ↦ elim (Bool-cases (is_internal_host_name env.v6 host)) [
        | inl internal ↦ inl (ground (arith, text, internal))
        | inr outside ↦
            inr (host, port, ground (arith, text, outside), outside, ground arith, ground arith)
      ]
    ]

-- An endpoint that is announced to be public: a routable IPv4 address, or a name that is not internal.
abbrev pub IsPublic : V6Text → Bytes → Type 0
IsPublic v6 endpoint =
    ((ip : Bytes) × (port : Bytes) × (endpoint ≡ join_host_port (ip_string v6 ip) port)
      × (is_routable_ipv4 ip ≡ true))
    ⊎ ((host : Bytes) × (port : Bytes) × (endpoint ≡ join_host_port host port)
        × (parse_ip v6 host ≡ none)
        × (is_internal_host_name v6 host ≡ false))

announced_ip :
    (v6 : V6Text) (ip port : Bytes)
    → let e = if not (is_routable_ipv4 ip) then [] else join_host_port (ip_string v6 ip) port in
      (e ≡ []) ⊎ IsPublic v6 e
announced_ip v6 ip port =
    if_split (λ (e : Bytes). (e ≡ []) ⊎ IsPublic v6 e) (not (is_routable_ipv4 ip))
      (λ closed. inl refl) (λ routable. inr (inl (ip, port, refl, ground (arith, routable))))

announced_host :
    (v6 : V6Text) (host port : Bytes)
    → let e = elim (parse_ip v6 host) as (λ _. Bytes) [
      | some ip ↦ if not (is_routable_ipv4 ip) then [] else join_host_port (ip_string v6 ip) port
      | none ↦ if is_internal_host_name v6 host then [] else join_host_port host port
    ] in
      (e ≡ []) ⊎ IsPublic v6 e
announced_host v6 host port = elim (Option-cases (parse_ip v6 host)) [
  | inr (ip, address) ↦ rw address (announced_ip v6 ip port)
  | inl name ↦ rw name (
      if_split (λ (e : Bytes). (e ≡ []) ⊎ IsPublic v6 e) (is_internal_host_name v6 host)
        (λ internal. inl refl) (λ outside. inr (inr (host, port, refl, name, outside))))
]

-- Whatever a peer announces, normalizePublicEndpoint makes of it no endpoint, an IPv4 address that is
-- routable with a port, or a host name that is not internal with a port.
pub normalize_public_endpoint-IsPublic :
    (v6 : V6Text) (endpoint : Bytes)
    → (normalize_public_endpoint v6 endpoint ≡ [])
      ⊎ IsPublic v6 (normalize_public_endpoint v6 endpoint)
unfolding normalize_public_endpoint
normalize_public_endpoint-IsPublic v6 endpoint =
    let P = (λ (e : Bytes). (e ≡ []) ⊎ IsPublic v6 e) in
    let text = trim_space endpoint in
    if_split P (is_empty text) (λ blank. inl refl)
      (λ there. elim (Option-cases (split_host_port text)) [
        | inr ((host', port'), parts) ↦
            rw parts (
              announced_host v6 (trim_space host')
                (or_default default_port_text (trim_space port')))
        | inl whole ↦ rw whole (elim (Option-cases (parse_ip v6 text)) [
          | inl other ↦ rw other (inl refl)
          | inr (ip, address) ↦ rw address (announced_ip v6 ip default_port_text)
        ])
      ])

pub IsUsable-there :
    (v6 : V6Text) (e : Bytes) → (e ≡ []) ⊎ IsUsable v6 e → not (is_empty e) ≡ true → IsUsable v6 e
IsUsable-there v6 e (inl gone) there = absurd (ground (arith, gone, there))
IsUsable-there v6 e (inr usable) there = usable

direct_endpoint-IsUsable :
    (env : Surroundings) (peer : PeerInfo)
    → (direct_endpoint env peer ≡ []) ⊎ IsUsable env.v6 (direct_endpoint env peer)
unfolding direct_endpoint
direct_endpoint-IsUsable env peer =
    sanitize_endpoint-IsUsable env _ 51820 (omega arith) (omega arith)

lan_endpoint-IsUsable :
    (env : Surroundings) (tun_cidr : Bytes) (peer : PeerInfo)
    → (lan_endpoint env tun_cidr peer ≡ []) ⊎ IsUsable env.v6 (lan_endpoint env tun_cidr peer)
unfolding lan_endpoint
lan_endpoint-IsUsable env tun_cidr peer =
    sanitize_endpoint-IsUsable env _ 51820 (omega arith) (omega arith)

module _ (env : Surroundings) (tun_cidr local_public_endpoint : Bytes) (peer : PeerInfo) where
  abbrev pub IsSelected : Bytes × Via → Type 0
  IsSelected (endpoint, via) =
      let same = same_public_nat env.v6 local_public_endpoint peer.public_endpoint in
      ((endpoint ≡ []) × (via ≡ nothing))
      ⊎ (IsUsable env.v6 endpoint
          × (via ≡ p2p)
          × (same ≡ false)
          × (endpoint ≡ direct_endpoint env peer))
      ⊎ (IsUsable env.v6 endpoint
          × (via ≡ lan)
          × ((same || lan_fallback_enabled env) ≡ true)
          × (endpoint ≡ lan_endpoint env tun_cidr peer))

  -- A selection is empty, or an endpoint whose host is not internal and whose port is from 1 to 65535. It is
  -- empty or from the local network if the peer is behind the public address of this machine, and from the
  -- local network only then or if the variable allows it.
  pub select_direct_or_lan_endpoint_lem :
      IsSelected (select_direct_or_lan_endpoint env tun_cidr local_public_endpoint peer)
  unfolding select_direct_or_lan_endpoint
  select_direct_or_lan_endpoint_lem =
      let direct = direct_endpoint env peer in
      let local = lan_endpoint env tun_cidr peer in
      let same = same_public_nat env.v6 local_public_endpoint peer.public_endpoint in
      if_split IsSelected same
        (λ nat.
          if_split IsSelected (not (is_empty local))
            (λ there. inr (
              inr (
                IsUsable-there env.v6 local (lan_endpoint-IsUsable env tun_cidr peer) there,
                refl,
                ground (arith, nat),
                refl,
              )))
            (λ gone. inl (refl, refl)))
        (λ other.
          if_split IsSelected (not (is_empty direct))
            (λ there. inr (
              inl (
                IsUsable-there env.v6 direct (direct_endpoint-IsUsable env peer) there,
                refl,
                other,
                refl,
              )))
            (λ gone.
              if_split IsSelected (not (is_empty local) && lan_fallback_enabled env)
                (λ there. inr (
                  inr (
                    IsUsable-there env.v6 local (lan_endpoint-IsUsable env tun_cidr peer)
                        (ground (arith, there)),
                    refl,
                    ground (arith, there),
                    refl,
                  )))
                (λ gone'. inl (refl, refl))))
