-- ===== src/Stdlib/Text.antt =====
-- Go's package strings. Spaces and letter case are those of ASCII.
pub mod Trim
use vpn_cloude.Base.{
  ℕ, suc, ◌+◌, Bool, true, false, ◌&&◌, ◌||◌, Option, none, some, List, [], ◌∷◌, map, leb, ◌==◌,
  if◌then◌else◌, Bytes,
}

abbrev pub is_empty : Bytes → Bool
is_empty [] = true
is_empty (c ∷ s) = false

abbrev pub is_space : ℕ → Bool
is_space c = (leb 9 c && leb c 13) || c == 32

unfoldable pub trim_left : (ℕ → Bool) → Bytes → Bytes
trim_left p [] = []
trim_left p (c ∷ s) = let rest = trim_left p s in if p c then rest else c ∷ s

unfoldable pub trim_right : (ℕ → Bool) → Bytes → Bytes
trim_right p [] = []
trim_right p (c ∷ s) = let rest = trim_right p s in if is_empty rest && p c then [] else c ∷ rest

-- `strings.Trim` with the set of characters as a test.
unfoldable pub trim : (ℕ → Bool) → Bytes → Bytes
trim p s = trim_right p (trim_left p s)

unfoldable pub trim_space : Bytes → Bytes
trim_space s = trim is_space s

-- `strings.Trim(s, "[]")`.
unfoldable pub trim_brackets : Bytes → Bytes
trim_brackets s = trim (λ c. c == 91 || c == 93) s

unfoldable pub to_lower : Bytes → Bytes
to_lower s = map (λ c. if leb 65 c && leb c 90 then c + 32 else c) s

unfoldable pub index_byte : ℕ → Bytes → Option ℕ
index_byte b [] = none
index_byte b (c ∷ s) =
    let rest = index_byte b s in
    if c == b then some 0 else (elim rest [ none ↦ none | some i ↦ some (suc i) ])

unfoldable pub last_index_byte : ℕ → Bytes → Option ℕ
last_index_byte b [] = none
last_index_byte b (c ∷ s) = elim (last_index_byte b s) [
  | some i ↦ some (suc i)
  | none ↦ if c == b then some 0 else none
]

unfoldable pub contains_byte : ℕ → Bytes → Bool
contains_byte b [] = false
contains_byte b (c ∷ s) = c == b || contains_byte b s

abbrev join_first : ℕ → List Bytes → List Bytes
join_first c [] = (c ∷ []) ∷ []
join_first c (part ∷ parts) = (c ∷ part) ∷ parts

-- `strings.Split` at a separator of one character.
unfoldable pub split_byte : ℕ → Bytes → List Bytes
split_byte b [] = [] ∷ []
split_byte b (c ∷ s) = let rest = split_byte b s in if c == b then [] ∷ rest else join_first c rest

-- `strings.Count` of a text of one character.
unfoldable pub count_byte : ℕ → Bytes → ℕ
count_byte b [] = 0
count_byte b (c ∷ s) = let rest = count_byte b s in if c == b then suc rest else rest

unfoldable pub has_prefix : Bytes → Bytes → Bool
has_prefix [] s = true
has_prefix (p ∷ ps) [] = false
has_prefix (p ∷ ps) (c ∷ s) = p == c && has_prefix ps s
