-- ===== src/Stdlib/HostPort.antt =====
-- `net.SplitHostPort` and `net.JoinHostPort`.
use vpn_cloude.Base.{
  ℕ, ◌+◌, ◌≡◌, refl, Bool, true, false, ◌||◌, Option, none, some, [], ◌∷◌, ◌++◌, ◌==◌,
  if◌then◌else◌, length, take, drop, take_prefix, Bytes, arith, Bool-cases, inl, inr,
}
use vpn_cloude.Stdlib.Text.{index_byte, last_index_byte, contains_byte}

unfoldable pub join_host_port : Bytes → Bytes → Bytes
join_host_port host port =
    if contains_byte 58 host then 91 ∷ (host ++ (93 ∷ 58 ∷ port)) else host ++ (58 ∷ port)

abbrev starts_with_bracket : Bytes → Bool
starts_with_bracket [] = false
starts_with_bracket (c ∷ s) = c == 91

-- No bracket may stand in these parts of the text.
abbrev without_brackets : Bytes → Bytes → Bytes × Bytes → Option (Bytes × Bytes)
without_brackets opens closes parts =
    if contains_byte 91 opens || contains_byte 93 closes then none else some parts

-- The last colon at `i`.
split_at : Bytes → ℕ → Option (Bytes × Bytes)
split_at s i =
    let port = drop (i + 1) s in
    if starts_with_bracket s
    then (elim (index_byte 93 s) [
      | none ↦ none
      | some end ↦
          if end + 1 == i
          then without_brackets (drop 1 s) (drop (end + 1) s) (drop 1 (take end s), port)
          else none
    ])
    else if contains_byte 58 (take i s)
    then none
    else without_brackets s s (take i s, port)

unfoldable pub split_host_port : Bytes → Option (Bytes × Bytes)
unfolding split_at
split_host_port s = elim (last_index_byte 58 s) [ none ↦ none | some i ↦ split_at s i ]

contains_byte-append :
    (b : ℕ) (xs ys : Bytes)
    → contains_byte b (xs ++ ys) ≡ (contains_byte b xs || contains_byte b ys)
unfolding contains_byte
contains_byte-append b [] ys = refl
contains_byte-append b (x ∷ xs) ys = ground (arith, contains_byte-append b xs ys)

contains_byte-cons :
    (b c : ℕ) (s : Bytes) → contains_byte b (c ∷ s) ≡ ((c == b) || contains_byte b s)
unfolding contains_byte
contains_byte-cons b c s = refl

last_index_byte-none : (b : ℕ) (s : Bytes) → contains_byte b s ≡ false → last_index_byte b s ≡ none
unfolding contains_byte last_index_byte
last_index_byte-none b [] h = refl
last_index_byte-none b (c ∷ s) h = ground (arith, last_index_byte-none b s)

last_index_byte-append :
    (b : ℕ) (xs ys : Bytes)
    → contains_byte b ys ≡ false
    → last_index_byte b (xs ++ (b ∷ ys)) ≡ some (length xs)
unfolding last_index_byte
last_index_byte-append b [] ys h = ground (arith, last_index_byte-none b ys h)
last_index_byte-append b (x ∷ xs) ys h = ground (arith, last_index_byte-append b xs ys h)

index_byte-append :
    (b : ℕ) (xs ys : Bytes)
    → contains_byte b xs ≡ false
    → index_byte b (xs ++ (b ∷ ys)) ≡ some (length xs)
unfolding index_byte contains_byte
index_byte-append b [] ys h = ground arith
index_byte-append b (x ∷ xs) ys h = ground (arith, index_byte-append b xs ys)

last_index_byte-append_two :
    (b c : ℕ) (xs ys : Bytes)
    → contains_byte b ys ≡ false
    → last_index_byte b (xs ++ (c ∷ b ∷ ys)) ≡ some (length xs + 1)
unfolding last_index_byte
last_index_byte-append_two b c [] ys h = ground (arith, last_index_byte-none b ys h)
last_index_byte-append_two b c (x ∷ xs) ys h =
    ground (arith, last_index_byte-append_two b c xs ys h)

drop_after : (xs : Bytes) (b : ℕ) (ys : Bytes) → drop (length xs + 1) (xs ++ (b ∷ ys)) ≡ ys
drop_after [] b ys = refl
drop_after (x ∷ xs) b ys = ground (arith, drop_after xs b ys)

drop_after_two :
    (xs : Bytes) (b c : ℕ) (ys : Bytes) → drop (length xs + 2) (xs ++ (b ∷ c ∷ ys)) ≡ ys
drop_after_two [] b c ys = refl
drop_after_two (x ∷ xs) b c ys = ground (arith, drop_after_two xs b c ys)

no_bracket_first :
    (host port : Bytes)
    → contains_byte 91 host ≡ false
    → starts_with_bracket (host ++ (58 ∷ port)) ≡ false
unfolding contains_byte
no_bracket_first [] port h = ground arith
no_bracket_first (c ∷ host) port h = ground arith

split_plain :
    (host port : Bytes)
    → contains_byte 58 host ≡ false
    → contains_byte 91 (host ++ (58 ∷ port)) ≡ false
    → contains_byte 93 (host ++ (58 ∷ port)) ≡ false
    → starts_with_bracket (host ++ (58 ∷ port)) ≡ false
    → split_at (host ++ (58 ∷ port)) (length host) ≡ some (host, port)
unfolding split_at
split_plain host port h58 none91 none93 plain = ground (
  arith,
  plain,
  none91,
  none93,
  h58,
  take_prefix (length host) host (58 ∷ port) refl,
  drop_after host 58 port,
)

split_bracketed :
    (host port : Bytes)
    → contains_byte 93 host ≡ false
    → contains_byte 91 (host ++ (93 ∷ 58 ∷ port)) ≡ false
    → contains_byte 93 (58 ∷ port) ≡ false
    → split_at (91 ∷ (host ++ (93 ∷ 58 ∷ port))) (length host + 2) ≡ some (host, port)
unfolding split_at index_byte
split_bracketed host port h93 none91 none93 = ground (
  arith,
  none91,
  none93,
  index_byte-append 93 host (58 ∷ port) h93,
  take_prefix (length host) host (93 ∷ 58 ∷ port) refl,
  drop_after host 93 (58 ∷ port),
  drop_after_two host 93 58 port,
)

plain_case :
    (host port : Bytes)
    → contains_byte 91 host ≡ false
    → contains_byte 93 host ≡ false
    → contains_byte 58 port ≡ false
    → contains_byte 91 port ≡ false
    → contains_byte 93 port ≡ false
    → contains_byte 58 host ≡ false
    → split_host_port (join_host_port host port) ≡ some (host, port)
unfolding split_host_port join_host_port
plain_case host port h91 h93 p58 p91 p93 plain = ground (
  arith,
  plain,
  last_index_byte-append 58 host port p58,
  split_plain host port plain
      (ground (arith, contains_byte-append 91 host (58 ∷ port), contains_byte-cons 91 58 port))
      (ground (arith, contains_byte-append 93 host (58 ∷ port), contains_byte-cons 93 58 port))
      (no_bracket_first host port h91),
)

bracketed_case :
    (host port : Bytes)
    → contains_byte 91 host ≡ false
    → contains_byte 93 host ≡ false
    → contains_byte 58 port ≡ false
    → contains_byte 91 port ≡ false
    → contains_byte 93 port ≡ false
    → contains_byte 58 host ≡ true
    → split_host_port (join_host_port host port) ≡ some (host, port)
unfolding split_host_port join_host_port last_index_byte
bracketed_case host port h91 h93 p58 p91 p93 v6 =
    let no_open : contains_byte 91 (host ++ (93 ∷ 58 ∷ port)) ≡ false = ground (
      arith,
      contains_byte-append 91 host (93 ∷ 58 ∷ port),
      contains_byte-cons 91 93 (58 ∷ port),
      contains_byte-cons 91 58 port,
    ) in
    let no_close : contains_byte 93 (58 ∷ port) ≡ false =
      ground (arith, contains_byte-cons 93 58 port) in
    ground (
      arith,
      v6,
      last_index_byte-append_two 58 93 host port p58,
      split_bracketed host port h93 no_open no_close,
    )

-- A host without brackets, and a port that has neither colon nor bracket, are read back.
pub split_host_port-join_host_port :
    (host port : Bytes)
    → contains_byte 91 host ≡ false
    → contains_byte 93 host ≡ false
    → contains_byte 58 port ≡ false
    → contains_byte 91 port ≡ false
    → contains_byte 93 port ≡ false
    → split_host_port (join_host_port host port) ≡ some (host, port)
unfolding split_host_port join_host_port split_at
split_host_port-join_host_port host port h91 h93 p58 p91 p93 =
    elim (Bool-cases (contains_byte 58 host)) [
      | inl v6 ↦ bracketed_case host port h91 h93 p58 p91 p93 v6
      | inr plain ↦ plain_case host port h91 h93 p58 p91 p93 plain
    ]
