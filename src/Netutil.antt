-- ===== src/Netutil.antt =====
-- pkg/netutil/ip.go: the choice of a free address in a network. An address of 32 bits is a number.
pub mod Allocate
pub mod Choice
mod Tests
use vpn_cloude.Base.{
  ℕ, zero, suc, ◌+◌, ◌-◌, ◌*◌, ◌/◌, ◌%◌, ◌^◌, Bool, true, false, not, ◌&&◌, ◌||◌, Option, none,
  some, List, [], ◌∷◌, leb, ◌==◌, if◌then◌else◌, length, get_or, Bytes, bit_or,
}
use vpn_cloude.Stdlib.Ip.{
  V6Text, IpNet, to4, ip_v4, parse_ip, parse_cidr, mask_ip, contains_ip, ip_string, is_private,
  is_loopback,
}

abbrev pub uint32 : ℕ → ℕ
uint32 v = v % 2 ^ 32

unfoldable pub word_of_octets : Bytes → ℕ
word_of_octets v =
    bit_or
      (bit_or (bit_or (uint32 (get_or v 0 0 * 2 ^ 24)) (uint32 (get_or v 1 0 * 2 ^ 16)))
        (uint32 (get_or v 2 0 * 2 ^ 8)))
      (uint32 (get_or v 3 0))

unfoldable pub ip_to_uint32 : Bytes → ℕ
ip_to_uint32 ip = elim (to4 ip) [ none ↦ 0 | some v ↦ word_of_octets v ]

unfoldable pub uint32_to_ip : ℕ → Bytes
uint32_to_ip v = ip_v4 (v / 2 ^ 24 % 256) (v / 2 ^ 16 % 256) (v / 2 ^ 8 % 256) (v % 256)

unfoldable pub mask_to_uint32 : Bytes → ℕ
mask_to_uint32 mask = if not (length mask == 4) then 0 else word_of_octets mask

-- The address of 4 bytes that a text stands for.
unfoldable pub address_of : V6Text → Bytes → Option Bytes
address_of v6 raw = elim (parse_ip v6 raw) [ none ↦ none | some ip ↦ to4 ip ]

unfoldable pub used_words : V6Text → List Bytes → List ℕ
used_words v6 [] = []
used_words v6 (raw ∷ existing) =
    let rest = used_words v6 existing in
    elim (address_of v6 raw) [ none ↦ rest | some v4 ↦ ip_to_uint32 v4 ∷ rest ]

unfoldable pub is_used : ℕ → List ℕ → Bool
is_used v [] = false
is_used v (u ∷ us) = (u == v) || is_used v us

-- The loop, on the number of candidates that are left.
unfoldable pub first_free : IpNet → List ℕ → ℕ → ℕ → Option ℕ
first_free net used zero candidate = none
first_free net used (suc left) candidate =
    let rest = first_free net used left (candidate + 1) in
    let ip = uint32_to_ip candidate in
    if get_or ip 3 0 == 255
    then rest
    else if is_used candidate used
    then rest
    else if not (contains_ip net ip)
    then rest
    else some candidate

-- The first candidate and the broadcast address, which bounds them.
unfoldable pub host_range : IpNet → Option (ℕ × ℕ)
host_range net = elim (to4 net.ip) [
  | none ↦ none
  | some network_ip ↦
      let mask = mask_to_uint32 net.mask in
      let network = ip_to_uint32 (mask_ip network_ip net.mask) in
      let broadcast = bit_or network (2 ^ 32 - 1 - mask) in
      if mask == 0
      then none
      else if leb broadcast (uint32 (network + 2))
      then none
      else some (uint32 (network + 2), broadcast)
]

-- The empty text says that there is no address.
unfoldable pub allocate_ip : V6Text → Bytes → List Bytes → Bytes
allocate_ip v6 cidr existing = elim (parse_cidr v6 cidr) [
  | none ↦ []
  | some net ↦ elim (host_range net) [
    | none ↦ []
    | some (first, broadcast) ↦
        elim (first_free net (used_words v6 existing) (broadcast - first) first) [
          | none ↦ []
          | some candidate ↦ ip_string v6 (uint32_to_ip candidate)
        ]
  ]
]

pub is_private_ip : V6Text → Bytes → Bool
is_private_ip v6 text = elim (parse_ip v6 text) [
  | none ↦ false
  | some ip ↦ is_private ip || is_loopback ip
]
