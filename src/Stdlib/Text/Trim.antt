-- ===== src/Stdlib/Text/Trim.antt =====
-- `strings.TrimSpace` on texts that are trimmed.
use vpn_cloude.Base.{
  ℕ, ◌≡◌, refl, ap, ◌∙◌, Bool, true, false, ◌&&◌, [], ◌∷◌, Bytes, All, if_split, if_both, arith,
}
use vpn_cloude.Stdlib.Text.{is_empty, is_space, trim_left, trim_right, trim, trim_space}

-- A text without spaces is trimmed already.
abbrev pub NoSpace : Bytes → Type 0
NoSpace s = All (λ c. is_space c ≡ false) s

trim_left-NoSpace : (s : Bytes) → NoSpace s → trim_left is_space s ≡ s
unfolding trim_left
trim_left-NoSpace [] h = refl
trim_left-NoSpace (c ∷ s) h = ground (arith, h.0)

trim_right-NoSpace : (s : Bytes) → NoSpace s → trim_right is_space s ≡ s
unfolding trim_right
trim_right-NoSpace [] h = refl
trim_right-NoSpace (c ∷ s) h = ground (arith, h.0, trim_right-NoSpace s h.1)

pub trim_space-NoSpace : (s : Bytes) → NoSpace s → trim_space s ≡ s
unfolding trim_space trim
trim_space-NoSpace s h = ap (trim_right is_space) (trim_left-NoSpace s h) ∙ trim_right-NoSpace s h

trim_right_idem : (p : ℕ → Bool) (s : Bytes) → trim_right p (trim_right p s) ≡ trim_right p s
unfolding trim_right
trim_right_idem p [] = refl
trim_right_idem p (c ∷ s) = ground (arith, trim_right_idem p s)

-- The text does not begin with a character of the set.
abbrev Starts : (ℕ → Bool) → Bytes → Type 0
Starts p [] = Unit
Starts p (c ∷ s) = p c ≡ false

trim_left-Starts : (p : ℕ → Bool) (s : Bytes) → Starts p (trim_left p s)
unfolding trim_left
trim_left-Starts p [] = tt
trim_left-Starts p (c ∷ s) = if_split (Starts p) (p c) (λ out. trim_left-Starts p s) (λ kept. kept)

trim_left-started : (p : ℕ → Bool) (s : Bytes) → Starts p s → trim_left p s ≡ s
unfolding trim_left
trim_left-started p [] h = refl
trim_left-started p (c ∷ s) h = ground (arith, h)

trim_right-Starts : (p : ℕ → Bool) (s : Bytes) → Starts p s → Starts p (trim_right p s)
unfolding trim_right
trim_right-Starts p [] h = tt
trim_right-Starts p (c ∷ s) h = if_both (Starts p) (is_empty (trim_right p s) && p c) tt h

pub trim_space_idem : (s : Bytes) → trim_space (trim_space s) ≡ trim_space s
unfolding trim_space trim
trim_space_idem s =
    let left = trim_left is_space s in
    ap (trim_right is_space) (
      trim_left-started is_space (trim_right is_space left)
        (trim_right-Starts is_space left (trim_left-Starts is_space s)))
    ∙ trim_right_idem is_space left

pub is_empty-nil : (s : Bytes) → is_empty s ≡ true → s ≡ []
is_empty-nil [] h = refl
is_empty-nil (c ∷ s) h = absurd (ground (arith, h))
