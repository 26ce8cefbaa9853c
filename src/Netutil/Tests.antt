-- ===== src/Netutil/Tests.antt =====
-- Runs of AllocateIP, and its theorems at a small network.
use vpn_cloude.Base.{
  ℕ, ◌≡◌, ◌≢◌, refl, Option, none, some, List, [], ◌∷◌, Bytes, codes, All, arith, bytes_equal,
}
use vpn_cloude.Stdlib.Text.{index_byte}
use vpn_cloude.Stdlib.Number.{digits_value}
use vpn_cloude.Stdlib.Ip.{
  V6Text, IpNet, to4, parse_v4_from, parse_v4, family_mark, parse_ip, dotted, ip_string, cidr_mask,
  and_bytes, mask_ip, parse_cidr, contains_ip,
}
use vpn_cloude.Netutil.{
  word_of_octets, ip_to_uint32, uint32_to_ip, mask_to_uint32, address_of, used_words, is_used,
  first_free, host_range, allocate_ip,
}
use vpn_cloude.Netutil.Allocate.{IsFirstFree}
use vpn_cloude.Netutil.Choice.{candidate_text, allocate_ip_lem, allocate_ip-unused}

abbrev only_v4 : V6Text
only_v4 = record { parse = λ text. none; print = λ ip. [] }

abbrev cidr : Bytes
cidr = codes "10.0.0.0/30"

abbrev net : IpNet
net = record { ip = 10 ∷ 0 ∷ 0 ∷ 0 ∷ []; mask = 255 ∷ 255 ∷ 255 ∷ 252 ∷ [] }

abbrev existing : List Bytes
existing = codes "10.0.0.9" ∷ codes "nonsense" ∷ []

cidr_parsed : parse_cidr only_v4 cidr ≡ some net
unfolding parse_cidr index_byte family_mark parse_ip parse_v4 parse_v4_from digits_value cidr_mask
    mask_ip and_bytes bytes_equal
cidr_parsed = refl

net_range : host_range net ≡ some (167772162, 167772163)
unfolding host_range to4 ip_to_uint32 mask_to_uint32 word_of_octets mask_ip and_bytes bytes_equal
net_range = refl

allocated : allocate_ip only_v4 cidr existing ≡ codes "10.0.0.2"
unfolding allocate_ip parse_cidr index_byte family_mark parse_ip parse_v4 parse_v4_from digits_value
    cidr_mask mask_ip and_bytes bytes_equal host_range to4 ip_to_uint32 mask_to_uint32
    word_of_octets used_words address_of is_used first_free uint32_to_ip contains_ip ip_string
    dotted
allocated = refl

-- In a network of 9 host bits an address that ends in 255 is given away.
ends_in_255 :
    first_free (record { ip = 10 ∷ 0 ∷ 0 ∷ 0 ∷ []; mask = 255 ∷ 255 ∷ 254 ∷ 0 ∷ [] }) [] 1 167772415
    ≡ some 167772415
unfolding first_free is_used uint32_to_ip contains_ip to4 and_bytes bytes_equal
ends_in_255 = refl

allocate_ip_lem_example :
    (found : Option ℕ) × IsFirstFree net (used_words only_v4 existing) 167772162 167772163 found
    × (allocate_ip only_v4 cidr existing ≡ candidate_text only_v4 found)
allocate_ip_lem_example =
    allocate_ip_lem only_v4 cidr existing net 167772162 167772163 cidr_parsed net_range

allocated_not_empty : allocate_ip only_v4 cidr existing ≢ []
allocated_not_empty = λ e. ground (arith, allocated, e)

allocate_ip-unused_example :
    (ip : Bytes) × (address_of only_v4 (allocate_ip only_v4 cidr existing) ≡ some ip)
    × All (λ raw. address_of only_v4 raw ≢ some ip) existing
allocate_ip-unused_example = allocate_ip-unused only_v4 cidr existing allocated_not_empty
