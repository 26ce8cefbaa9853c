-- ===== src/Middleware/Tests.antt =====
-- RealIP at concrete requests.
use vpn_cloude.Base.{◌≡◌, refl, ◌⊎◌, none, List, [], ◌∷◌, Bytes, bytes_equal, codes}
use vpn_cloude.Base.Select.{any}
use vpn_cloude.Stdlib.Text.{
  trim_space, trim, trim_left, trim_right, split_byte, index_byte, last_index_byte, contains_byte,
}
use vpn_cloude.Stdlib.Number.{digits_value}
use vpn_cloude.Stdlib.Ip.{
  V6Text, parse_ip, parse_v4, parse_v4_from, family_mark, parse_cidr, cidr_mask, mask_ip, and_bytes,
  contains_ip, ip_string, dotted, to4,
}
use vpn_cloude.Stdlib.HostPort.{split_host_port, join_host_port}
use vpn_cloude.Middleware.{
  Request, add_entry, new_trusted_proxy_set, host_only, contains_address, contains_host,
  address_text, parse_header_ip, first_address, parse_forwarded_for, forwarded_addr, real_ip,
  remote_ip_key,
}
use vpn_cloude.Middleware.Trusted.{IsTrusted, Replaced, real_ip_lem}

abbrev only_v4 : V6Text
only_v4 = record { parse = λ text. none; print = λ ip. [] }

abbrev trusted_proxies : List Bytes
trusted_proxies = codes "127.0.0.1" ∷ codes " 10.0.0.0/8 " ∷ codes "proxy" ∷ []

-- The client at 203.0.113.7 sent the first part, and the proxy has added the second.
abbrev forged : Request
forged = record {
  remote_addr = codes "10.0.0.5:443";
  x_real_ip = [];
  x_forwarded_for = codes "198.51.100.9, 203.0.113.7";
}

-- The address that the client made up is the one that counts.
forged_key : remote_ip_key (real_ip only_v4 trusted_proxies forged) ≡ codes "198.51.100.9"
unfolding add_entry new_trusted_proxy_set host_only contains_address contains_host address_text
    parse_header_ip first_address parse_forwarded_for forwarded_addr real_ip remote_ip_key any
    trim_space trim trim_left trim_right split_byte index_byte last_index_byte contains_byte
    digits_value parse_ip parse_v4 parse_v4_from family_mark parse_cidr cidr_mask mask_ip and_bytes
    contains_ip ip_string dotted to4 split_host_port join_host_port bytes_equal
forged_key = refl

-- A connection that is of no proxy keeps its address whatever its headers are.
stranger_key :
    remote_ip_key
      (real_ip only_v4 trusted_proxies (record forged { remote_addr = codes "192.0.2.1:80" }))
    ≡ codes "192.0.2.1"
unfolding add_entry new_trusted_proxy_set host_only contains_address contains_host real_ip
    remote_ip_key any trim_space trim trim_left trim_right index_byte last_index_byte contains_byte
    digits_value parse_ip parse_v4 parse_v4_from family_mark parse_cidr cidr_mask mask_ip and_bytes
    contains_ip ip_string dotted to4 split_host_port bytes_equal
stranger_key = refl

real_ip_lem_example :
    (real_ip only_v4 trusted_proxies forged ≡ forged)
    ⊎ (IsTrusted only_v4 trusted_proxies (host_only (codes "10.0.0.5:443"))
        × ((addr : Bytes) × Replaced only_v4 forged addr
            × (real_ip only_v4 trusted_proxies forged ≡ record forged { remote_addr = addr })))
real_ip_lem_example = real_ip_lem only_v4 trusted_proxies forged
