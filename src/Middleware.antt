-- ===== src/Middleware.antt =====
-- RealIP of server/internal/api/middleware/realip.go, and RemoteIPKey of ratelimit.go beside it.
mod Trusted
mod Tests
use vpn_cloude.Base.{
  ℕ, Bool, true, false, not, ◌||◌, Option, none, some, List, [], ◌∷◌, ◌==◌, if◌then◌else◌, Bytes,
  bytes_equal, codes,
}
use vpn_cloude.Base.Select.{any}
use vpn_cloude.Stdlib.Text.{is_empty, trim_space, split_byte}
use vpn_cloude.Stdlib.Ip.{V6Text, IpNet, parse_ip, parse_cidr, contains_ip, ip_string}
use vpn_cloude.Stdlib.HostPort.{split_host_port, join_host_port}

-- The address of the connection, and the values of the two headers.
pub record Request : Type 0 where
  pub remote_addr : Bytes
  pub x_real_ip : Bytes
  pub x_forwarded_for : Bytes

pub record TrustedProxySet : Type 0 where
  pub exact : List Bytes
  pub cidrs : List IpNet

unfoldable pub add_entry : V6Text → Option Bytes → Option IpNet → TrustedProxySet → TrustedProxySet
add_entry v6 (some ip) network set = record set { exact = ip_string v6 ip ∷ set.exact }
add_entry v6 none (some network) set = record set { cidrs = network ∷ set.cidrs }
add_entry v6 none none set = set

unfoldable pub new_trusted_proxy_set : V6Text → List Bytes → TrustedProxySet
new_trusted_proxy_set v6 [] = record { exact = []; cidrs = [] }
new_trusted_proxy_set v6 (raw ∷ entries) =
    let value = trim_space raw in
    let set = new_trusted_proxy_set v6 entries in
    if is_empty value then set else add_entry v6 (parse_ip v6 value) (parse_cidr v6 value) set

unfoldable pub host_only : Bytes → Bytes
host_only raw =
    let value = trim_space raw in
    if is_empty value
    then []
    else (elim (split_host_port value) [ some (host, port) ↦ host | none ↦ value ])

unfoldable pub contains_address : V6Text → TrustedProxySet → Option Bytes → Bool
contains_address v6 set none = false
contains_address v6 set (some ip) =
    any (bytes_equal (ip_string v6 ip)) set.exact
    || any (λ network. contains_ip network ip) set.cidrs

-- `contains`; no text is an address if it is empty.
unfoldable pub contains_host : V6Text → TrustedProxySet → Bytes → Bool
contains_host v6 set raw =
    let host = host_only raw in
    if is_empty host then false else contains_address v6 set (parse_ip v6 host)

unfoldable pub address_text : V6Text → Option Bytes → Bytes
address_text v6 none = []
address_text v6 (some ip) = ip_string v6 ip

unfoldable pub parse_header_ip : V6Text → Bytes → Bytes
parse_header_ip v6 raw =
    let value = trim_space raw in if is_empty value then [] else address_text v6 (parse_ip v6 value)

unfoldable pub first_address : V6Text → List Bytes → Bytes
first_address v6 [] = []
first_address v6 (part ∷ parts) =
    let rest = first_address v6 parts in
    let candidate = parse_header_ip v6 part in if is_empty candidate then rest else candidate

unfoldable pub parse_forwarded_for : V6Text → Bytes → Bytes
parse_forwarded_for v6 raw = first_address v6 (split_byte 44 raw)

-- The address for the request that a trusted proxy passes on.
unfoldable pub forwarded_addr : V6Text → Request → Bytes
forwarded_addr v6 r =
    let real_ip = parse_header_ip v6 r.x_real_ip in
    let forwarded = parse_forwarded_for v6 r.x_forwarded_for in
    if not (is_empty real_ip)
    then join_host_port real_ip (codes "0")
    else if not (is_empty forwarded)
    then join_host_port forwarded (codes "0")
    else r.remote_addr

-- `RealIP`: the request that the next handler gets.
unfoldable pub real_ip : V6Text → List Bytes → Request → Request
real_ip v6 trusted_proxies r =
    if not (contains_host v6 (new_trusted_proxy_set v6 trusted_proxies) (host_only r.remote_addr))
    then r
    else record r { remote_addr = forwarded_addr v6 r }

unfoldable pub remote_ip_key : Request → Bytes
remote_ip_key r =
    let host = host_only r.remote_addr in if is_empty host then r.remote_addr else host
