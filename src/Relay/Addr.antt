-- ===== src/Relay/Addr.antt =====
-- `net.UDPAddr` and the address functions of relay/internal/relay_server.go.
use vpn_cloude.Base.{
  ℕ, ◌≡◌, Bool, true, false, ◌&&◌, Option, none, some, [], ◌∷◌, ◌++◌, ◌==◌, if◌then◌else◌, length,
  take, drop, replicate, Bytes, bytes_equal, bytes_equal_iff, arith,
}

pub record UdpAddr : Type 0 where
  pub ip : Bytes
  pub port : ℕ
  pub zone : Bytes

abbrev v4_in_v6_prefix : Bytes
v4_in_v6_prefix = replicate 10 0 ++ (255 ∷ 255 ∷ [])

-- `net.IP.Equal`: an IPv4 address and its form inside IPv6 are equal.
unfoldable pub ip_equal : Bytes → Bytes → Bool
ip_equal a b =
    if length a == length b
    then bytes_equal a b
    else if (length a == 4) && (length b == 16)
    then bytes_equal (take 12 b) v4_in_v6_prefix && bytes_equal a (drop 12 b)
    else if (length a == 16) && (length b == 4)
    then bytes_equal (take 12 a) v4_in_v6_prefix && bytes_equal (drop 12 a) b
    else false

-- Nil is equal to nothing.
unfoldable pub same_addr : Option UdpAddr → Option UdpAddr → Bool
same_addr none b = false
same_addr (some a) none = false
same_addr (some a) (some b) = (a.port == b.port) && ip_equal a.ip b.ip

pub same_addr_refl : (a : UdpAddr) → same_addr (some a) (some a) ≡ true
unfolding same_addr ip_equal
same_addr_refl a = ground (arith, bytes_equal_iff a.ip a.ip)
