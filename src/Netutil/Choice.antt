-- ===== src/Netutil/Choice.antt =====
-- What AllocateIP returns, as a text.
use vpn_cloude.Base.{
  ℕ, ◌-◌, ◌/◌, ◌%◌, ◌^◌, ◌<◌, ◌≡◌, ◌≢◌, ap, subst, ◌∙◌, false, Option, none, some, List, [], ◌∷◌,
  Bytes, bytes_equal, All, All-map, Option-cases, inl, inr, arith,
}
use vpn_cloude.Stdlib.Ip.{V6Text, IpNet, to4, parse_cidr, ip_string, parse_ip-ip_string}
use vpn_cloude.Netutil.{
  ip_to_uint32, uint32_to_ip, address_of, used_words, first_free, host_range, allocate_ip, is_used,
}
use vpn_cloude.Netutil.Allocate.{
  IsFirstFree, first_free-IsFirstFree, ip_to_uint32-uint32_to_ip, host_range-lt, is_used-used_words,
}

-- The text of a candidate, or the empty text.
abbrev pub candidate_text : V6Text → Option ℕ → Bytes
candidate_text v6 none = []
candidate_text v6 (some v) = ip_string v6 (uint32_to_ip v)

host_range-order :
    (net : IpNet) (first broadcast : ℕ)
    → host_range net ≡ some (first, broadcast)
    → first < broadcast
unfolding host_range
host_range-order net first broadcast e = elim (Option-cases (to4 net.ip)) [
  | inl other ↦ absurd (ground (arith, other, e))
  | inr (v, four) ↦ ground (arith, four, e)
]

-- The text of a word is read back.
address_of-candidate :
    (v6 : V6Text) (v : ℕ)
    → v < 2 ^ 32
    → (ip : Bytes) × (address_of v6 (ip_string v6 (uint32_to_ip v)) ≡ some ip)
      × (ip_to_uint32 ip ≡ v)
unfolding address_of uint32_to_ip ip_to_uint32 to4 bytes_equal
address_of-candidate v6 v h =
    let a = v / 2 ^ 24 % 256 in
    let b = v / 2 ^ 16 % 256 in
    let c = v / 2 ^ 8 % 256 in
    let d = v % 256 in
    (
      a ∷ b ∷ c ∷ d ∷ [],
      ground (
        arith,
        parse_ip-ip_string v6 a b c d (omega arith) (omega arith) (omega arith) (omega arith),
      ),
      ip_to_uint32-uint32_to_ip v h,
    )

module _ (v6 : V6Text) (cidr : Bytes) (existing : List Bytes) where
  -- In a network with a range of hosts, the result is the text of the first address of the range that is
  -- in the network and that none of the existing texts stands for, or empty if there is none.
  pub allocate_ip_lem :
      (net : IpNet) (first broadcast : ℕ)
      → parse_cidr v6 cidr ≡ some net
      → host_range net ≡ some (first, broadcast)
      → (found : Option ℕ) × IsFirstFree net (used_words v6 existing) first broadcast found
        × (allocate_ip v6 cidr existing ≡ candidate_text v6 found)
  unfolding allocate_ip
  allocate_ip_lem net first broadcast parsed range =
      let used = used_words v6 existing in
      let found = first_free net used (broadcast - first) first in
      (
        found,
        first_free-IsFirstFree net used (broadcast - first) first broadcast
            (omega (arith, host_range-order net first broadcast range)),
        ground (arith, parsed, range),
      )

  cases_of_result :
      allocate_ip v6 cidr existing ≢ []
      → (v : ℕ) × (v < 2 ^ 32)
        × (is_used v (used_words v6 existing) ≡ false)
        × (allocate_ip v6 cidr existing ≡ ip_string v6 (uint32_to_ip v))
  cases_of_result given = elim (Option-cases (parse_cidr v6 cidr)) [
    | inl bad ↦ absurd (given (unfold allocate_ip in ground (arith, bad)))
    | inr (net, parsed) ↦ elim (Option-cases (host_range net)) [
      | inl small ↦ absurd (given (unfold allocate_ip in ground (arith, parsed, small)))
      | inr ((first, broadcast), range) ↦
          let (found, least, text) = allocate_ip_lem net first broadcast parsed range in
          let bound = host_range-lt net first broadcast range in
          elim (Option-cases found) [
            | inl nothing ↦ absurd (given (text ∙ ap (candidate_text v6) nothing))
            | inr (v, there) ↦
                let (low, high, free, before) =
                  subst (IsFirstFree net (used_words v6 existing) first broadcast) there least in
                (v, omega arith, ground (arith, free), text ∙ ap (candidate_text v6) there)
          ]
    ]
  ]

  -- A result that is not empty is the text of an address that no existing text stands for.
  pub allocate_ip-unused :
      allocate_ip v6 cidr existing ≢ []
      → (ip : Bytes) × (address_of v6 (allocate_ip v6 cidr existing) ≡ some ip)
        × All (λ raw. address_of v6 raw ≢ some ip) existing
  allocate_ip-unused given =
      let (v, bound, unused, text) = cases_of_result given in
      let (ip, stands, word) = address_of-candidate v6 v bound in
      (
        ip,
        ap (address_of v6) text ∙ stands,
        All-map existing (λ raw differs same. differs ip same word)
            (is_used-used_words v6 existing v unused),
      )
