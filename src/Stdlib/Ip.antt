-- ===== src/Stdlib/Ip.antt =====
-- Addresses of Go's package net, as slices of 4 or 16 bytes. The text form of IPv6 is a parameter.
use vpn_cloude.Base.{
  ℕ, zero, suc, ◌+◌, ◌-◌, ◌*◌, ◌/◌, ◌%◌, ◌^◌, ◌<◌, ◌≡◌, refl, sym, ap, ◌∙◌, Bool, ◌&&◌, ◌||◌,
  Option, none, some, [], ◌∷◌, ◌++◌, ltb, leb, ◌==◌, if◌then◌else◌, length, get_or, take, drop,
  replicate, Bytes, bytes_equal, bit_and, arith, Bool-cases, inl, inr,
}
use mathlib.Core.List.{append-nil}
use vpn_cloude.Stdlib.Number.{is_digit, digits_value}
use vpn_cloude.Stdlib.Text.{index_byte}

-- `netip.ParseAddr` on a text with a colon before any dot, less a text with a zone, and `IP.String` of
-- an address that is not IPv4.
pub record V6Text : Type 0 where
  pub parse : Bytes → Option Bytes
  pub print : Bytes → Bytes

abbrev v4_in_v6_prefix : Bytes
v4_in_v6_prefix = replicate 10 0 ++ (255 ∷ 255 ∷ [])

-- `net.IPv4`: the form of 16 bytes.
abbrev pub ip_v4 : ℕ → ℕ → ℕ → ℕ → Bytes
ip_v4 a b c d = v4_in_v6_prefix ++ (a ∷ b ∷ c ∷ d ∷ [])

unfoldable pub to4 : Bytes → Option Bytes
to4 ip =
    if length ip == 4
    then some ip
    else if (length ip == 16) && bytes_equal (take 12 ip) v4_in_v6_prefix
    then some (drop 12 ip)
    else none

-- The digits of an octet that were read, and the octets before it.
unfoldable pub parse_v4_from : Bytes → ℕ → ℕ → Bytes → Option Bytes
parse_v4_from fields value digits [] =
    if (length fields == 3) && ltb 0 digits then some (fields ++ (value ∷ [])) else none
parse_v4_from fields value digits (c ∷ s) =
    let next = value * 10 + (c - 48) in
    let same_octet = parse_v4_from fields next (digits + 1) s in
    let next_octet = parse_v4_from (fields ++ (value ∷ [])) 0 0 s in
    if is_digit c
    then (if ((digits == 1) && (value == 0)) || ltb 255 next then none else same_octet)
    else if c == 46
    then (if (digits == 0) || (length fields == 3) then none else next_octet)
    else none

unfoldable pub parse_v4 : Bytes → Option Bytes
parse_v4 s = parse_v4_from [] 0 0 s

-- The first of dot, colon and percent sign decides the family, as in `netip.ParseAddr`.
unfoldable pub family_mark : Bytes → ℕ
family_mark [] = 0
family_mark (c ∷ s) =
    let rest = family_mark s in if (c == 46) || (c == 58) || (c == 37) then c else rest

unfoldable pub parse_ip : V6Text → Bytes → Option Bytes
parse_ip v6 s =
    if family_mark s == 46
    then (elim (parse_v4 s) [ none ↦ none | some ip ↦ some (v4_in_v6_prefix ++ ip) ])
    else if family_mark s == 58
    then v6.parse s
    else none

-- One octet as `IP.String` writes it.
abbrev pub octet_text : ℕ → Bytes
octet_text n =
    if ltb n 10
    then (48 + n) ∷ []
    else if ltb n 100
    then (48 + n / 10) ∷ (48 + n % 10) ∷ []
    else (48 + n / 100) ∷ (48 + n / 10 % 10) ∷ (48 + n % 10) ∷ []

unfoldable pub dotted : Bytes → Bytes
dotted ip =
    octet_text (get_or ip 0 0)
    ++ (46
        ∷ (octet_text (get_or ip 1 0)
            ++ (46 ∷ (octet_text (get_or ip 2 0) ++ (46 ∷ octet_text (get_or ip 3 0))))))

unfoldable pub ip_string : V6Text → Bytes → Bytes
ip_string v6 ip = elim (to4 ip) [ some v4 ↦ dotted v4 | none ↦ v6.print ip ]

unfoldable pub is_loopback : Bytes → Bool
is_loopback ip = elim (to4 ip) [
  | some v4 ↦ get_or v4 0 0 == 127
  | none ↦ bytes_equal ip (replicate 15 0 ++ (1 ∷ []))
]

unfoldable pub is_unspecified : Bytes → Bool
is_unspecified ip = elim (to4 ip) [
  | some v4 ↦ bytes_equal v4 (replicate 4 0)
  | none ↦ bytes_equal ip (replicate 16 0)
]

unfoldable pub is_multicast : Bytes → Bool
is_multicast ip = elim (to4 ip) [
  | some v4 ↦ bit_and (get_or v4 0 0) 240 == 224
  | none ↦ (length ip == 16) && (get_or ip 0 0 == 255)
]

unfoldable pub is_private : Bytes → Bool
is_private ip = elim (to4 ip) [
  | some v4 ↦
      (get_or v4 0 0 == 10)
      || ((get_or v4 0 0 == 172) && (bit_and (get_or v4 1 0) 240 == 16))
      || ((get_or v4 0 0 == 192) && (get_or v4 1 0 == 168))
  | none ↦ (length ip == 16) && (bit_and (get_or ip 0 0) 254 == 252)
]

pub record IpNet : Type 0 where
  pub ip : Bytes
  pub mask : Bytes

-- `net.CIDRMask` of `ones` bits in a mask of `bytes` bytes.
unfoldable pub cidr_mask : ℕ → ℕ → Bytes
cidr_mask zero ones = []
cidr_mask (suc bytes) ones =
    (if leb 8 ones then 255 else 256 - 2 ^ (8 - ones)) ∷ cidr_mask bytes (ones - 8)

unfoldable pub and_bytes : Bytes → Bytes → Bytes
and_bytes [] m = []
and_bytes (x ∷ xs) [] = []
and_bytes (x ∷ xs) (y ∷ ys) = bit_and x y ∷ and_bytes xs ys

-- `IP.Mask`, of an address and a mask of one family.
unfoldable pub mask_ip : Bytes → Bytes → Bytes
mask_ip ip mask =
    let v4 = (length mask == 4) && (length ip == 16) && bytes_equal (take 12 ip) v4_in_v6_prefix in
    let short =
      (length mask == 16) && (length ip == 4) && bytes_equal (take 12 mask) (replicate 12 255) in
    let x = if v4 then drop 12 ip else ip in
    let m = if short then drop 12 mask else mask in
    if length x == length m then and_bytes x m else []

-- The length of the prefix, in decimal digits and at most `bits`.
abbrev prefix_length : ℕ → Bytes → Option ℕ
prefix_length bits [] = none
prefix_length bits (d ∷ ds) = elim (digits_value 0 (d ∷ ds)) [
  | none ↦ none
  | some n ↦ if leb n bits then some n else none
]

-- The network that `net.ParseCIDR` returns.
unfoldable pub parse_cidr : V6Text → Bytes → Option IpNet
parse_cidr v6 s = elim (index_byte 47 s) [
  | none ↦ none
  | some i ↦
      let address = take i s in
      let v4 = family_mark address == 46 in
      elim (parse_ip v6 address) [
        | none ↦ none
        | some ip ↦ elim (prefix_length (if v4 then 32 else 128) (drop (i + 1) s)) [
          | none ↦ none
          | some n ↦
              let mask = cidr_mask (if v4 then 4 else 16) n in
              some (record { ip = mask_ip ip mask; mask = mask })
        ]
      ]
]

-- The form of 4 bytes if there is one.
abbrev shortest : Bytes → Bytes
shortest ip = elim (to4 ip) [ some v4 ↦ v4 | none ↦ ip ]

-- `IPNet.Contains`, of a network that `parse_cidr` made.
unfoldable pub contains_ip : IpNet → Bytes → Bool
contains_ip net ip =
    let nn = shortest net.ip in
    let m = if (length nn == 4) && (length net.mask == 16) then drop 12 net.mask else net.mask in
    let x = shortest ip in (length x == length nn) && bytes_equal (and_bytes nn m) (and_bytes x m)

parse_octet :
    (fields rest : Bytes) (n : ℕ)
    → n < 256
    → (digits : ℕ) × (0 < digits)
      × (parse_v4_from fields 0 0 (octet_text n ++ rest) ≡ parse_v4_from fields n digits rest)
unfolding parse_v4_from
parse_octet fields rest n h = elim (Bool-cases (ltb n 10)) [
  | inl one ↦ (1, omega arith, ground (arith, one))
  | inr more ↦ elim (Bool-cases (ltb n 100)) [
    | inl two ↦ (2, omega arith, ground (arith, more, two))
    | inr three ↦ (3, omega arith, ground (arith, more, three))
  ]
]

parse_v4-dot :
    (fields rest : Bytes) (value digits : ℕ)
    → 0 < digits
    → length fields < 3
    → parse_v4_from fields value digits (46 ∷ rest)
      ≡ parse_v4_from (fields ++ (value ∷ [])) 0 0 rest
unfolding parse_v4_from
parse_v4-dot fields rest value digits h few = ground arith

parse_v4-end :
    (fields : Bytes) (value digits : ℕ)
    → length fields ≡ 3
    → 0 < digits
    → parse_v4_from fields value digits [] ≡ some (fields ++ (value ∷ []))
unfolding parse_v4_from
parse_v4-end fields value digits three h = ground arith

-- `net.ParseIP` reads the dotted form of four octets.
pub parse_v4-dotted :
    (a b c d : ℕ)
    → a < 256
    → b < 256
    → c < 256
    → d < 256
    → parse_v4 (dotted (a ∷ b ∷ c ∷ d ∷ [])) ≡ some (a ∷ b ∷ c ∷ d ∷ [])
unfolding parse_v4 dotted
parse_v4-dotted a b c d ha hb hc hd =
    let tail_d = 46 ∷ octet_text d in
    let tail_c = 46 ∷ (octet_text c ++ tail_d) in
    let tail_b = 46 ∷ (octet_text b ++ tail_c) in
    let (i, pi, ea) = parse_octet [] tail_b a ha in
    let (j, pj, eb) = parse_octet (a ∷ []) tail_c b hb in
    let (k, pk, ec) = parse_octet (a ∷ b ∷ []) tail_d c hc in
    let (l, pl, ed) = parse_octet (a ∷ b ∷ c ∷ []) [] d hd in
    let last : parse_v4_from (a ∷ b ∷ c ∷ []) d l [] ≡ some (a ∷ b ∷ c ∷ d ∷ []) =
      parse_v4-end (a ∷ b ∷ c ∷ []) d l refl pl in
    ea
    ∙ parse_v4-dot [] (octet_text b ++ tail_c) a i pi (omega arith)
    ∙ eb
    ∙ parse_v4-dot (a ∷ []) (octet_text c ++ tail_d) b j pj (omega arith)
    ∙ ec
    ∙ parse_v4-dot (a ∷ b ∷ []) (octet_text d) c k pk (omega arith)
    ∙ ap (parse_v4_from (a ∷ b ∷ c ∷ []) 0 0) (sym (append-nil (octet_text d)))
    ∙ ed
    ∙ last

family_mark-octet :
    (n : ℕ) (rest : Bytes) → n < 256 → family_mark (octet_text n ++ (46 ∷ rest)) ≡ 46
unfolding family_mark
family_mark-octet n rest h = ground arith

dotted-mark : (a b c d : ℕ) → a < 256 → family_mark (dotted (a ∷ b ∷ c ∷ d ∷ [])) ≡ 46
unfolding dotted
dotted-mark a b c d ha = family_mark-octet a _ ha

pub parse_ip-ip_string :
    (v6 : V6Text) (a b c d : ℕ)
    → a < 256
    → b < 256
    → c < 256
    → d < 256
    → parse_ip v6 (ip_string v6 (ip_v4 a b c d)) ≡ some (ip_v4 a b c d)
unfolding parse_ip ip_string to4 bytes_equal
parse_ip-ip_string v6 a b c d ha hb hc hd =
    ground (arith, parse_v4-dotted a b c d ha hb hc hd, dotted-mark a b c d ha)
