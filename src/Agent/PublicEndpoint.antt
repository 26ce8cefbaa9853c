-- ===== src/Agent/PublicEndpoint.antt =====
-- The public endpoint of the agent (refreshEndpointIfNeeded of client/internal/agent/agent.go).
use vpn_cloude.Base.{
  ℕ, ◌-◌, ◌<◌, ◌≡◌, refl, ap, ◌∙◌, ◌⊎◌, inl, inr, Bool, true, false, not, ◌&&◌, Option, none, some,
  [], ◌∷◌, ltb, Bytes, Option-cases, if_split, arith,
}
use vpn_cloude.Stdlib.Text.{is_empty, trim_space}
use vpn_cloude.Stdlib.Number.{itoa}
use vpn_cloude.Stdlib.Ip.{V6Text, parse_ip, ip_string}
use vpn_cloude.Stdlib.HostPort.{join_host_port}
use vpn_cloude.Peer.Endpoint.{is_routable_ipv4}
use vpn_cloude.Agent.{
  Config, Agent, routable_text, discover_public_ip, refreshed, refresh_endpoint_if_needed,
  current_wg_port, endpoint_refresh_interval,
}

-- A routable IPv4 address with a port.
abbrev pub IsPublic : V6Text → Bytes → Type 0
IsPublic v6 endpoint =
    (ip : Bytes) × (port : ℕ) × (is_routable_ipv4 ip ≡ true)
    × (0 < port)
    × (endpoint ≡ join_host_port (ip_string v6 ip) (itoa port))

-- The agent has such an endpoint or none.
abbrev pub HasPublic : V6Text → Agent → Type 0
HasPublic v6 a = (a.public_endpoint ≡ []) ⊎ IsPublic v6 a.public_endpoint

abbrev IsRoutableText : V6Text → Bytes → Type 0
IsRoutableText v6 text = (ip : Bytes) × (is_routable_ipv4 ip ≡ true) × (text ≡ ip_string v6 ip)

routable_text-some :
    (v6 : V6Text) (text found : Bytes)
    → routable_text v6 text ≡ some found
    → IsRoutableText v6 found
routable_text-some v6 text found h = elim (Option-cases (parse_ip v6 (trim_space text))) [
  | inl bad ↦ absurd (ground (arith, bad, h))
  | inr (ip, parsed) ↦ (ip, ground (arith, parsed, h), ground (arith, parsed, h))
]

discover_public_ip-some :
    (v6 : V6Text) (stun : Option Bytes) (outbound found : Bytes)
    → discover_public_ip v6 stun outbound ≡ some found
    → IsRoutableText v6 found
unfolding discover_public_ip
discover_public_ip-some v6 none outbound found h = routable_text-some v6 outbound found h
discover_public_ip-some v6 (some stun) outbound found h =
    elim (Option-cases (routable_text v6 stun)) [
      | inl bad ↦ routable_text-some v6 outbound found (ground (arith, bad, h))
      | inr (ip, good) ↦ routable_text-some v6 stun found (good ∙ ground (arith, good, h))
    ]

current_wg_port-positive : (config : Config) (a : Agent) → 0 < current_wg_port config a
current_wg_port-positive config a = ground arith

-- The result of a refresh: the endpoint of the agent after it, which is public, or an error of an agent that has
-- none.
abbrev pub Refreshes : V6Text → Option (Bytes × Bool) × Agent → Type 0
Refreshes v6 (none, a) = a.public_endpoint ≡ []
Refreshes v6 (some (endpoint, changed), a) =
    (endpoint ≡ a.public_endpoint) × IsPublic v6 a.public_endpoint

kept :
    (v6 : V6Text) (a : Agent)
    → HasPublic v6 a
    → is_empty a.public_endpoint ≡ false
    → Refreshes v6 (some (a.public_endpoint, false), a)
kept v6 a (inl gone) there = absurd (ground (arith, gone, there))
kept v6 a (inr public) there = (refl, public)

empty_text : (s : Bytes) → is_empty s ≡ true → s ≡ []
empty_text [] h = refl
empty_text (c ∷ s) h = absurd (cc h)

refreshed-Refreshes :
    (v6 : V6Text) (config : Config) (now : ℕ) (a : Agent) (found : Option Bytes)
    → ((ip : Bytes) → found ≡ some ip → IsRoutableText v6 ip)
    → HasPublic v6 a
    → Refreshes v6 (refreshed config now a found)
unfolding refreshed
refreshed-Refreshes v6 config now a none routable h =
    if_split (Refreshes v6) (not (is_empty a.public_endpoint))
      (λ there. kept v6 a h (ground (arith, there)))
      (λ gone. empty_text a.public_endpoint (ground (arith, gone)))
refreshed-Refreshes v6 config now a (some text) routable h =
    let (ip, good, same) = routable text refl in
    (
      refl,
      (
        ip,
        current_wg_port config a,
        good,
        current_wg_port-positive config a,
        ap (λ host. join_host_port host (itoa (current_wg_port config a))) same,
      ),
    )

-- Whatever STUN and the system answer, an agent whose endpoint is public or missing has one of these after a refresh: the
-- refresh returns the endpoint in use, a routable IPv4 address with a port, or fails and there is none.
pub refresh_endpoint_if_needed-Refreshes :
    (v6 : V6Text) (config : Config) (now : ℕ) (force : Bool) (stun : Option Bytes)
    (outbound : Bytes) (a : Agent)
    → HasPublic v6 a
    → Refreshes v6 (refresh_endpoint_if_needed v6 config now force stun outbound a)
unfolding refresh_endpoint_if_needed
refresh_endpoint_if_needed-Refreshes v6 config now force stun outbound a h =
    if_split (Refreshes v6)
      (not force
        && not (is_empty a.public_endpoint)
        && ltb (now - a.last_endpoint_refresh) (endpoint_refresh_interval config))
      (λ cached. kept v6 a h (ground (arith, cached)))
      (λ stale.
        refreshed-Refreshes v6 config now a (discover_public_ip v6 stun outbound)
          (λ ip found. discover_public_ip-some v6 stun outbound ip found) h)
