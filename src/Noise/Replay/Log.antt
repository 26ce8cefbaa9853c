-- ===== src/Noise/Replay/Log.antt =====
-- What a replay window promises, with no bitmap: the log of the counters that were accepted, newest
-- first. A counter is fresh if it is above all of them, or less than 2048 below the highest and not
-- among them.
use vpn_cloude.Base.{
  ℕ, ◌-◌, ◌<◌, max, ◌≡◌, Bool, true, false, not, ◌&&◌, ◌||◌, List, [], ◌∷◌, ltb, ◌==◌, arith,
}

unfoldable pub contains : List ℕ → ℕ → Bool
contains [] c = false
contains (x ∷ log) c = x == c || contains log c

unfoldable pub highest : List ℕ → ℕ
highest [] = 0
highest (x ∷ log) = max x (highest log)

abbrev pub is_empty : List ℕ → Bool
is_empty [] = true
is_empty (x ∷ log) = false

unfoldable pub is_fresh : List ℕ → ℕ → Bool
is_fresh log c =
    is_empty log || ltb (highest log) c || (ltb (highest log - c) 2048 && not (contains log c))

abbrev pub add_if : Bool → ℕ → List ℕ → List ℕ
add_if true c log = c ∷ log
add_if false c log = log

unfoldable pub verdicts : List ℕ → List ℕ → List Bool
verdicts log [] = []
verdicts log (c ∷ rest) = let fresh = is_fresh log c in fresh ∷ verdicts (add_if fresh c log) rest

pub contains-above : (log : List ℕ) (c : ℕ) → highest log < c → contains log c ≡ false
unfolding contains highest
contains-above [] c h = ground arith
contains-above (x ∷ log) c h = ground (arith, contains-above log c (omega arith))

pub contains-add_if :
    (b : Bool) (x : ℕ) (log : List ℕ) (c : ℕ)
    → contains log c ≡ true
    → contains (add_if b x log) c ≡ true
unfolding contains
contains-add_if true x log c h = ground arith
contains-add_if false x log c h = h
