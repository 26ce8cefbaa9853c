-- ===== src/Peer/Endpoint/Routable.antt =====
-- The addresses that count as routable, by their ranges.
use vpn_cloude.Base.{
  ℕ, zero, suc, ◌-◌, ◌*◌, ◌/◌, ◌^◌, ◌<◌, ◌≤◌, ◌≡◌, refl, ap, Bool, not, ◌&&◌, ◌||◌, leb, ◌==◌,
  bytes_equal, bit_and, bit_and-halves, arith,
}
use native.Mathlib.Nat.{pow-suc, one-le-pow}
use vpn_cloude.Stdlib.Ip.{to4, ip_v4, is_private, is_loopback, is_unspecified, is_multicast}
use vpn_cloude.Peer.Endpoint.{is_routable_ipv4}

-- A mask of ones keeps a number that it covers.
bit_and-ones : (k x : ℕ) → x < 2 ^ k → bit_and x (2 ^ k - 1) ≡ x
bit_and-ones zero zero h = refl
bit_and-ones zero (suc x) h = absurd (omega arith)
bit_and-ones (suc k) x h =
    let double : 2 ^ suc k ≡ 2 * 2 ^ k = omega (arith, pow-suc 2 k) in
    let some_left : 1 ≤ 2 ^ k = one-le-pow k 2 (omega arith) in
    let half : (2 ^ suc k - 1) / 2 ≡ 2 ^ k - 1 = omega arith in
    omega (
      arith,
      bit_and-halves x (2 ^ suc k - 1),
      ap (bit_and (x / 2)) half,
      bit_and-ones k (x / 2) (omega arith),
    )

bit_and-even : (x m : ℕ) → bit_and x (m * 2) ≡ bit_and (x / 2) m * 2
bit_and-even x m =
    let half : m * 2 / 2 ≡ m = omega arith in
    omega (arith, bit_and-halves x (m * 2), ap (bit_and (x / 2)) half)

-- The high half of a byte.
bit_and-high_half : (x : ℕ) → x < 256 → bit_and x 240 ≡ x / 16 * 16
bit_and-high_half x h = omega (
  arith,
  bit_and-even x 120,
  bit_and-even (x / 2) 60,
  bit_and-even (x / 2 / 2) 30,
  bit_and-even (x / 2 / 2 / 2) 15,
  bit_and-ones 4 (x / 2 / 2 / 2 / 2) (omega arith),
)

-- The ranges that are not routable: 10/8, 127/8, 172.16/12, 192.168/16, 169.254/16, 100.64/10, 224/4 and the
-- address 0.0.0.0.
abbrev pub in_closed_range : ℕ → ℕ → ℕ → ℕ → Bool
in_closed_range a b c d =
    (a == 10)
    || (a == 127)
    || ((a == 172) && leb 16 b && leb b 31)
    || ((a == 192) && (b == 168))
    || ((a == 169) && (b == 254))
    || ((a == 100) && leb 64 b && leb b 127)
    || (leb 224 a && leb a 239)
    || ((a == 0) && (b == 0) && (c == 0) && (d == 0))

-- An IPv4 address is routable just if it is not 0.0.0.0 and lies in none of the private, loopback, link-local,
-- shared and multicast ranges.
pub is_routable_ipv4-ranges :
    (a b c d : ℕ)
    → a < 256
    → b < 256
    → is_routable_ipv4 (ip_v4 a b c d) ≡ not (in_closed_range a b c d)
unfolding is_routable_ipv4 to4 is_private is_loopback is_unspecified is_multicast bytes_equal
is_routable_ipv4-ranges a b c d ha hb =
    ground (arith, bit_and-high_half a ha, bit_and-high_half b hb)
