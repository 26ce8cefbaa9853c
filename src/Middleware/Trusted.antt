-- ===== src/Middleware/Trusted.antt =====
-- Whose headers RealIP believes, and what it takes from them (server/internal/api/middleware/realip.go).
use vpn_cloude.Base.{
  ◌≡◌, refl, ap, ◌⊎◌, inl, inr, true, false, not, Option, none, some, List, [], ◌∷◌, Bytes,
  bytes_equal, bytes_equal_iff, codes, Any, Bool-cases, Option-cases, arith, if_split,
}
use vpn_cloude.Base.Select.{any}
use vpn_cloude.Stdlib.Text.{is_empty, trim_space, split_byte}
use vpn_cloude.Stdlib.Text.Trim.{is_empty-nil}
use vpn_cloude.Stdlib.Ip.{V6Text, IpNet, parse_ip, parse_cidr, contains_ip, ip_string}
use vpn_cloude.Stdlib.HostPort.{join_host_port}
use vpn_cloude.Middleware.{
  Request, TrustedProxySet, add_entry, new_trusted_proxy_set, host_only, contains_address,
  contains_host, address_text, parse_header_ip, first_address, parse_forwarded_for, forwarded_addr,
  real_ip,
}

-- The entry is the address, or a network with the address.
abbrev pub Covers : V6Text → Bytes → Bytes → Type 0
Covers v6 ip entry =
    ((other : Bytes) × (parse_ip v6 (trim_space entry) ≡ some other)
      × (ip_string v6 ip ≡ ip_string v6 other))
    ⊎ ((network : IpNet) × (parse_cidr v6 (trim_space entry) ≡ some network)
        × (contains_ip network ip ≡ true))

add_entry-Covers :
    (v6 : V6Text) (ip : Bytes) (address : Option Bytes) (network : Option IpNet)
    (set : TrustedProxySet)
    → contains_address v6 (add_entry v6 address network set) (some ip) ≡ true
    → ((other : Bytes) × (address ≡ some other) × (ip_string v6 ip ≡ ip_string v6 other))
      ⊎ ((net : IpNet) × (network ≡ some net) × (contains_ip net ip ≡ true))
      ⊎ (contains_address v6 set (some ip) ≡ true)
unfolding add_entry contains_address any
add_entry-Covers v6 ip none none set h = inr (inr h)
add_entry-Covers v6 ip none (some net) set h = elim (Bool-cases (contains_ip net ip)) [
  | inl inside ↦ inr (inl (net, refl, inside))
  | inr outside ↦ inr (inr (ground (arith, outside, h)))
]
add_entry-Covers v6 ip (some other) network set h =
    elim (Bool-cases (bytes_equal (ip_string v6 ip) (ip_string v6 other))) [
      | inl same ↦
          inl (other, refl, (bytes_equal_iff (ip_string v6 ip) (ip_string v6 other)).0 same)
      | inr apart ↦ inr (inr (ground (arith, apart, h)))
    ]

new_trusted_proxy_set-Covers :
    (v6 : V6Text) (ip : Bytes) (entries : List Bytes)
    → contains_address v6 (new_trusted_proxy_set v6 entries) (some ip) ≡ true
    → Any (Covers v6 ip) entries
unfolding new_trusted_proxy_set contains_address any
new_trusted_proxy_set-Covers v6 ip [] h = absurd (ground (arith, h))
new_trusted_proxy_set-Covers v6 ip (entry ∷ entries) h =
    elim (Bool-cases (is_empty (trim_space entry))) [
      | inl blank ↦ inr (new_trusted_proxy_set-Covers v6 ip entries (ground (arith, blank, h)))
      | inr there ↦
          let added =
            add_entry-Covers v6 ip (parse_ip v6 (trim_space entry))
              (parse_cidr v6 (trim_space entry)) (new_trusted_proxy_set v6 entries)
              (ground (arith, there, h)) in
          elim added [
            | inl exact ↦ inl (inl exact)
            | inr (inl inside) ↦ inl (inr inside)
            | inr (inr before) ↦ inr (new_trusted_proxy_set-Covers v6 ip entries before)
          ]
    ]

-- The host is an address that an entry covers.
abbrev pub IsTrusted : V6Text → List Bytes → Bytes → Type 0
IsTrusted v6 entries host =
    (ip : Bytes) × (parse_ip v6 (host_only host) ≡ some ip) × Any (Covers v6 ip) entries

contains_host-IsTrusted :
    (v6 : V6Text) (entries : List Bytes) (host : Bytes)
    → contains_host v6 (new_trusted_proxy_set v6 entries) host ≡ true
    → IsTrusted v6 entries host
unfolding contains_host contains_address
contains_host-IsTrusted v6 entries host h = elim (Option-cases (parse_ip v6 (host_only host))) [
  | inl bad ↦ absurd (ground (arith, bad, h))
  | inr (ip, reads) ↦
      (ip, reads, new_trusted_proxy_set-Covers v6 ip entries (ground (arith, reads, h)))
]

parse_header_ip-address :
    (v6 : V6Text) (raw : Bytes)
    → is_empty (parse_header_ip v6 raw) ≡ false
    → (ip : Bytes) × (parse_ip v6 (trim_space raw) ≡ some ip)
      × (parse_header_ip v6 raw ≡ ip_string v6 ip)
unfolding parse_header_ip address_text
parse_header_ip-address v6 raw h = elim (Option-cases (parse_ip v6 (trim_space raw))) [
  | inl bad ↦ absurd (ground (arith, bad, h))
  | inr (ip, reads) ↦ (ip, reads, ground (arith, reads, h))
]

-- Some part of the text is the address.
abbrev pub Names : V6Text → Bytes → Bytes → Type 0
Names v6 ip part = parse_ip v6 (trim_space part) ≡ some ip

first_address-Names :
    (v6 : V6Text) (parts : List Bytes)
    → is_empty (first_address v6 parts) ≡ false
    → (ip : Bytes) × Any (Names v6 ip) parts × (first_address v6 parts ≡ ip_string v6 ip)
unfolding first_address
first_address-Names v6 [] h = absurd (ground (arith, h))
first_address-Names v6 (part ∷ parts) h = elim (Bool-cases (is_empty (parse_header_ip v6 part))) [
  | inl none_here ↦
      let (ip, names, same) = first_address-Names v6 parts (ground (arith, none_here, h)) in
      (ip, inr names, ground (arith, none_here, same))
  | inr here ↦
      let (ip, names, same) = parse_header_ip-address v6 part here in
      (ip, inl names, ground (arith, here, same))
]

-- The header X-Real-IP is the address; or it is none, and a part of X-Forwarded-For is it.
abbrev pub Forwards : V6Text → Request → Bytes → Type 0
Forwards v6 r ip =
    Names v6 ip r.x_real_ip
    ⊎ ((parse_header_ip v6 r.x_real_ip ≡ []) × Any (Names v6 ip) (split_byte 44 r.x_forwarded_for))

-- The address is as it was, or that of a header, with port 0.
abbrev pub Replaced : V6Text → Request → Bytes → Type 0
Replaced v6 r addr =
    (addr ≡ r.remote_addr)
    ⊎ ((ip : Bytes) × Forwards v6 r ip × (addr ≡ join_host_port (ip_string v6 ip) (codes "0")))

forwarded_addr-Replaced : (v6 : V6Text) (r : Request) → Replaced v6 r (forwarded_addr v6 r)
unfolding forwarded_addr parse_forwarded_for
forwarded_addr-Replaced v6 r =
    let real_ip_text = parse_header_ip v6 r.x_real_ip in
    let forwarded = first_address v6 (split_byte 44 r.x_forwarded_for) in
    if_split (λ (out : Bytes). Replaced v6 r out) (not (is_empty real_ip_text))
      (λ there.
        let (ip, names, same) = parse_header_ip-address v6 r.x_real_ip (ground (arith, there)) in
        inr (ip, inl names, ap (λ t. join_host_port t (codes "0")) same))
      (λ missing.
        if_split (λ (out : Bytes). Replaced v6 r out) (not (is_empty forwarded))
          (λ there.
            let (ip, names, same) =
              first_address-Names v6 (split_byte 44 r.x_forwarded_for) (ground (arith, there)) in
            let none_there = is_empty-nil real_ip_text (ground (arith, missing)) in
            inr (ip, inr (none_there, names), ap (λ t. join_host_port t (codes "0")) same))
          (λ nowhere. inl refl))

-- The address of a request changes only if the connection is of a trusted proxy; then it is left, or it becomes
-- the address in X-Real-IP, or, if that header has none, one in X-Forwarded-For. The headers never change.
pub real_ip_lem :
    (v6 : V6Text) (entries : List Bytes) (r : Request)
    → (real_ip v6 entries r ≡ r)
      ⊎ (IsTrusted v6 entries (host_only r.remote_addr)
          × ((addr : Bytes) × Replaced v6 r addr
              × (real_ip v6 entries r ≡ record r { remote_addr = addr })))
unfolding real_ip
real_ip_lem v6 entries r =
    let set = new_trusted_proxy_set v6 entries in
    if_split
      (λ (out : Request).
        (out ≡ r)
        ⊎ (IsTrusted v6 entries (host_only r.remote_addr)
            × ((addr : Bytes) × Replaced v6 r addr × (out ≡ record r { remote_addr = addr }))))
      (not (contains_host v6 set (host_only r.remote_addr))) (λ untrusted. inl refl)
      (λ trusted. inr (
        contains_host-IsTrusted v6 entries (host_only r.remote_addr) (ground (arith, trusted)),
        (forwarded_addr v6 r, forwarded_addr-Replaced v6 r, refl),
      ))
