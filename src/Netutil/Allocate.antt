-- ===== src/Netutil/Allocate.antt =====
-- The loop of AllocateIP in pkg/netutil/ip.go, and the words of addresses.
use vpn_cloude.Base.{
  ℕ, zero, suc, ◌+◌, ◌-◌, ◌*◌, ◌/◌, ◌%◌, ◌^◌, ◌<◌, ◌≤◌, ◌≡◌, ◌≢◌, refl, sym, ap, ap₂, ◌∙◌, Bool,
  true, false, not, ◌&&◌, Option, none, some, List, [], ◌∷◌, ◌==◌, get_or, Bytes, bytes_equal,
  bit_or, bit_or-lt, bit_or_below, All, Bool-cases, Option-cases, ==_iff, inl, inr, arith,
}
use vpn_cloude.Stdlib.Ip.{V6Text, IpNet, to4, mask_ip, contains_ip}
use vpn_cloude.Netutil.{
  uint32, word_of_octets, ip_to_uint32, uint32_to_ip, mask_to_uint32, address_of, used_words,
  is_used, first_free, host_range,
}

-- Unused, and in the network.
abbrev pub is_free : IpNet → List ℕ → ℕ → Bool
is_free net used v = not (is_used v used) && contains_ip net (uint32_to_ip v)

-- The first free candidate from `start` on and below `stop`, or there is none.
abbrev pub IsFirstFree : IpNet → List ℕ → ℕ → ℕ → Option ℕ → Type 0
IsFirstFree net used start stop none = (v : ℕ) → start ≤ v → v < stop → is_free net used v ≡ false
IsFirstFree net used start stop (some v) =
    (start ≤ v)
    × (v < stop)
    × (is_free net used v ≡ true)
    × ((u : ℕ) → start ≤ u → u < v → is_free net used u ≡ false)

-- The form of 16 bytes has a 0 where the code looks for the last octet.
no_low_byte : (v : ℕ) → get_or (uint32_to_ip v) 3 0 ≡ 0
unfolding uint32_to_ip
no_low_byte v = refl

first_alone :
    (net : IpNet) (used : List ℕ) (start stop : ℕ)
    → is_free net used start ≡ true
    → start < stop
    → IsFirstFree net used start stop (some start)
first_alone net used start stop free h = (omega arith, h, free, λ u low high. absurd (omega arith))

IsFirstFree-before :
    (net : IpNet) (used : List ℕ) (start stop : ℕ) (found : Option ℕ)
    → is_free net used start ≡ false
    → IsFirstFree net used (start + 1) stop found
    → IsFirstFree net used start stop found
IsFirstFree-before net used start stop none taken later = λ v low high.
    elim (Bool-cases (start == v)) [
      | inl same ↦ ap (is_free net used) (sym ((==_iff start v).0 same)) ∙ taken
      | inr other ↦ later v (ground arith) high
    ]
IsFirstFree-before net used start stop (some v) taken (low, high, free, before) = (
  omega arith,
  high,
  free,
  λ u low' high'. elim (Bool-cases (start == u)) [
    | inl same ↦ ap (is_free net used) (sym ((==_iff start u).0 same)) ∙ taken
    | inr other ↦ before u (ground arith) high'
  ],
)

pub first_free-IsFirstFree :
    (net : IpNet) (used : List ℕ) (left start stop : ℕ)
    → start + left ≡ stop
    → IsFirstFree net used start stop (first_free net used left start)
unfolding first_free
first_free-IsFirstFree net used zero start stop e = λ v low high. absurd (omega arith)
first_free-IsFirstFree net used (suc left) start stop e =
    let later = first_free-IsFirstFree net used left (start + 1) stop (omega arith) in
    elim (Bool-cases (is_free net used start)) [
      | inl free ↦
          ground
            (arith, free, no_low_byte start, first_alone net used start stop free (omega arith))
      | inr taken ↦ ground (
        arith,
        taken,
        no_low_byte start,
        IsFirstFree-before net used start stop (first_free net used left (start + 1)) taken later,
      )
    ]

word_of_octets_sum :
    (a b c d : ℕ)
    → a < 256
    → b < 256
    → c < 256
    → d < 256
    → word_of_octets (a ∷ b ∷ c ∷ d ∷ []) ≡ a * 2 ^ 24 + b * 2 ^ 16 + c * 2 ^ 8 + d
unfolding word_of_octets
word_of_octets_sum a b c d ha hb hc hd =
    let ab : bit_or (uint32 (a * 2 ^ 24)) (uint32 (b * 2 ^ 16)) ≡ (a * 2 ^ 8 + b) * 2 ^ 16 =
      ap₂ bit_or (omega arith) (omega arith)
      ∙ bit_or_below 24 a (b * 2 ^ 16) (omega arith)
      ∙ omega arith in
    let abc : bit_or ((a * 2 ^ 8 + b) * 2 ^ 16) (uint32 (c * 2 ^ 8))
        ≡ (a * 2 ^ 16 + b * 2 ^ 8 + c) * 2 ^ 8 =
      ap (bit_or ((a * 2 ^ 8 + b) * 2 ^ 16)) (omega arith)
      ∙ bit_or_below 16 (a * 2 ^ 8 + b) (c * 2 ^ 8) (omega arith)
      ∙ omega arith in
    ap₂ bit_or (ap₂ bit_or ab refl ∙ abc) (omega arith)
    ∙ bit_or_below 8 (a * 2 ^ 16 + b * 2 ^ 8 + c) d (omega arith)
    ∙ omega arith

pub ip_to_uint32-uint32_to_ip : (v : ℕ) → v < 2 ^ 32 → ip_to_uint32 (uint32_to_ip v) ≡ v
unfolding ip_to_uint32 uint32_to_ip to4 bytes_equal
ip_to_uint32-uint32_to_ip v h =
    word_of_octets_sum (v / 2 ^ 24 % 256) (v / 2 ^ 16 % 256) (v / 2 ^ 8 % 256) (v % 256)
      (omega arith) (omega arith) (omega arith) (omega arith)
    ∙ omega arith

word_of_octets-lt : (v : Bytes) → word_of_octets v < 2 ^ 32
unfolding word_of_octets
word_of_octets-lt v =
    bit_or-lt 32 _ _ (bit_or-lt 32 _ _ (bit_or-lt 32 _ _ (omega arith) (omega arith)) (omega arith))
      (omega arith)

ip_to_uint32-lt : (ip : Bytes) → ip_to_uint32 ip < 2 ^ 32
unfolding ip_to_uint32
ip_to_uint32-lt ip = elim (Option-cases (to4 ip)) [
  | inl other ↦ ground (arith, other)
  | inr (v, four) ↦ ground (arith, four, word_of_octets-lt v)
]

pub host_range-lt :
    (net : IpNet) (first broadcast : ℕ)
    → host_range net ≡ some (first, broadcast)
    → broadcast < 2 ^ 32
unfolding host_range
host_range-lt net first broadcast e = elim (Option-cases (to4 net.ip)) [
  | inl other ↦ absurd (ground (arith, other, e))
  | inr (v, four) ↦
      let network = ip_to_uint32 (mask_ip v net.mask) in
      ground (
        arith,
        four,
        e,
        bit_or-lt 32 network (2 ^ 32 - 1 - mask_to_uint32 net.mask) (ip_to_uint32-lt _)
            (omega arith),
      )
]

-- The address that two texts stand for, if they stand for one, has a word that is used.
pub is_used-used_words :
    (v6 : V6Text) (existing : List Bytes) (v : ℕ)
    → is_used v (used_words v6 existing) ≡ false
    → All (λ raw. (ip : Bytes) → address_of v6 raw ≡ some ip → ip_to_uint32 ip ≢ v) existing
unfolding used_words is_used
is_used-used_words v6 [] v h = tt
is_used-used_words v6 (raw ∷ existing) v h = elim (Option-cases (address_of v6 raw)) [
  | inl none_there ↦ (
    λ ip e. absurd (ground (arith, none_there, e)),
    is_used-used_words v6 existing v (ground (arith, none_there, h)),
  )
  | inr (ip, there) ↦ (
    λ ip' e same. ground (arith, there, e, h, same),
    is_used-used_words v6 existing v (ground (arith, there, h)),
  )
]
