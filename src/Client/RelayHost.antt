-- ===== src/Client/RelayHost.antt =====
-- The host of a relay assignment in client/internal/api_client/client.go. `hostname` is the host that
-- `url.Parse` finds in a text, or empty.
use vpn_cloude.Base.{
  ◌≤◌, ◌≡◌, refl, ap, ◌⊎◌, inl, inr, Bool-cases, ◌∷◌, Bool, true, not, ◌&&◌, ◌||◌, none, some, [],
  ltb, ◌==◌, if◌then◌else◌, Bytes, bytes_equal, codes, if_split, arith,
}
use vpn_cloude.Stdlib.Text.{
  is_empty, trim_space, to_lower, contains_byte, trim, trim_left, trim_right, last_index_byte,
}
use vpn_cloude.Stdlib.Text.Trim.{trim_space_idem}
use vpn_cloude.Stdlib.Ip.{V6Text, parse_ip, is_loopback, is_unspecified}
use vpn_cloude.Stdlib.HostPort.{split_host_port}
use vpn_cloude.Peer.Manager.Relay.{RelayInfo}

unfoldable pub relay_host_from_url : (Bytes → Bytes) → Bytes → Bytes
relay_host_from_url hostname raw = trim_space (hostname (trim_space raw))

unfoldable pub host_from_endpoint : Bytes → Bytes
host_from_endpoint raw =
    let text = trim_space raw in
    if is_empty text
    then []
    else (elim (split_host_port text) [ some (host, port) ↦ trim_space host | none ↦ text ])

abbrev hostname_only : Bytes → Bytes
hostname_only text = elim (split_host_port text) [ some (host, port) ↦ host | none ↦ text ]

-- The test on a trimmed text.
unfoldable pub is_internal_text : V6Text → Bytes → Bool
is_internal_text v6 text =
    let h = to_lower (trim_space (hostname_only text)) in
    if is_empty h
    then true
    else if bytes_equal h (codes "relay")
        || bytes_equal h (codes "server")
        || bytes_equal h (codes "localhost")
    then true
    else (elim (parse_ip v6 h) [
      | some ip ↦ is_loopback ip || is_unspecified ip
      | none ↦ not (contains_byte 46 h)
    ])

unfoldable pub is_internal_relay_host : V6Text → Bytes → Bool
is_internal_relay_host v6 host = is_internal_text v6 (trim_space host)

-- `relayHostFromBaseURL`, which is also `PublicHost`.
unfoldable pub relay_host_from_base_url : V6Text → (Bytes → Bytes) → Bytes → Bytes
relay_host_from_base_url v6 hostname base_url =
    let host = relay_host_from_url hostname base_url in
    if is_empty host || is_internal_relay_host v6 host then [] else host

-- The host in place of an internal one.
unfoldable pub external_host : V6Text → (Bytes → Bytes) → Bytes → RelayInfo → Bytes
external_host v6 hostname base_url info =
    let endpoint_host = host_from_endpoint info.relay_endpoint in
    let fallback = relay_host_from_base_url v6 hostname base_url in
    if not (is_empty endpoint_host) && not (is_internal_relay_host v6 endpoint_host)
    then endpoint_host
    else if not (is_empty fallback)
    then fallback
    else info.relay_host

unfoldable pub normalize_relay_info : V6Text → (Bytes → Bytes) → Bytes → RelayInfo → RelayInfo
normalize_relay_info v6 hostname base_url info = record info {
  relay_port =
      if (info.relay_port == 0) || ltb 65535 info.relay_port then 3478 else info.relay_port;
  relay_host =
      if not (is_internal_relay_host v6 (trim_space info.relay_host))
      then info.relay_host
      else external_host v6 hostname base_url info;
}

is_internal-trim :
    (v6 : V6Text) (host : Bytes)
    → is_internal_relay_host v6 (trim_space host) ≡ is_internal_relay_host v6 host
unfolding is_internal_relay_host
is_internal-trim v6 host = ap (is_internal_text v6) (trim_space_idem host)

is_internal-nil :
    (v6 : V6Text) (host : Bytes) → is_empty host ≡ true → is_internal_relay_host v6 host ≡ true
unfolding is_internal_relay_host is_internal_text trim_space trim trim_left trim_right to_lower
    split_host_port last_index_byte
is_internal-nil v6 [] h = refl
is_internal-nil v6 (c ∷ host) h = absurd (ground (arith, h))

-- The host of the server is not internal, if it is there.
relay_host_from_base_url-external :
    (v6 : V6Text) (hostname : Bytes → Bytes) (base_url : Bytes)
    → is_internal_relay_host v6 (relay_host_from_base_url v6 hostname base_url)
      ≡ is_empty (relay_host_from_base_url v6 hostname base_url)
unfolding relay_host_from_base_url
relay_host_from_base_url-external v6 hostname base_url =
    let host = relay_host_from_url hostname base_url in
    if_split (λ (out : Bytes). is_internal_relay_host v6 out ≡ is_empty out)
      (is_empty host || is_internal_relay_host v6 host) (λ refused. is_internal-nil v6 [] refl)
      (λ public. ground (arith, public))

external_host-internal :
    (v6 : V6Text) (hostname : Bytes → Bytes) (base_url : Bytes) (info : RelayInfo)
    → is_internal_relay_host v6 info.relay_host ≡ true
    → is_internal_relay_host v6 (external_host v6 hostname base_url info) ≡ (
        is_internal_relay_host v6 (host_from_endpoint info.relay_endpoint)
        && is_empty (relay_host_from_base_url v6 hostname base_url))
unfolding external_host
external_host-internal v6 hostname base_url info internal =
    let endpoint_host = host_from_endpoint info.relay_endpoint in
    ground (
      arith,
      internal,
      is_internal-nil v6 endpoint_host,
      relay_host_from_base_url-external v6 hostname base_url,
    )

-- The port of a normalised assignment is that of the assignment, if it is from 1 to 65535, or 3478. Its host is
-- that of the assignment unless this is internal; and it is internal just if the host of the assignment and that of its
-- endpoint are and the address of the server has none that is not.
pub normalize_relay_info_lem :
    (v6 : V6Text) (hostname : Bytes → Bytes) (base_url : Bytes) (info : RelayInfo)
    → (1 ≤ (normalize_relay_info v6 hostname base_url info).relay_port)
      × ((normalize_relay_info v6 hostname base_url info).relay_port ≤ 65535)
      × (((normalize_relay_info v6 hostname base_url info).relay_port ≡ info.relay_port)
          ⊎ ((ltb 65535 info.relay_port || (info.relay_port == 0)) ≡ true)
            × ((normalize_relay_info v6 hostname base_url info).relay_port ≡ 3478))
      × (((normalize_relay_info v6 hostname base_url info).relay_host ≡ info.relay_host)
          ⊎ (is_internal_relay_host v6 info.relay_host ≡ true))
      × (is_internal_relay_host v6 (normalize_relay_info v6 hostname base_url info).relay_host ≡ (
          is_internal_relay_host v6 info.relay_host
          && is_internal_relay_host v6 (host_from_endpoint info.relay_endpoint)
          && is_empty (relay_host_from_base_url v6 hostname base_url)))
unfolding normalize_relay_info
normalize_relay_info_lem v6 hostname base_url info =
    let same = is_internal-trim v6 info.relay_host in
    elim (Bool-cases (is_internal_relay_host v6 info.relay_host)) [
      | inl internal ↦ (
        ground arith,
        ground arith,
        ground arith,
        inr internal,
        ground (arith, same, internal, external_host-internal v6 hostname base_url info internal),
      )
      | inr kept ↦ (
        ground arith,
        ground arith,
        ground arith,
        inl (ground (arith, same, kept)),
        ground (arith, same, kept),
      )
    ]
